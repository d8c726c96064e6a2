-- ===== src/Base/Number.antt =====
-- `int(text)` and `str(n)`. Decimal digits are the ASCII ones: header values are Latin-1, which
-- has no others.
use Prim.Native.Nat.{ℕ, zero, suc, ◌+◌, ◌-◌, ◌*◌, ◌/◌, ◌%◌, ◌^◌, ◌≤◌, ◌<◌}
use mathlib.Core.Path.{◌≡◌, refl, ap, ◌∙◌}
use mathlib.Core.Bool.{Bool, true, false, not, ◌&&◌, ◌||◌}
use mathlib.Core.Option.{Option, none, some}
use mathlib.Core.List.{[], ◌∷◌}
use native.Mathlib.Omega.{arith}
use native.Mathlib.Nat.{pow-suc}
use native.Mathlib.Numerals.{add-one}
use yeoun_ai.Base.Tests.{ltb, leb, if◌then◌else◌}
use yeoun_ai.Base.Equality.{◌==◌, nat_eq}
use yeoun_ai.Base.Lists.{All, All-mono}
use yeoun_ai.Base.Int.{ℤ, pos, neg}
use yeoun_ai.Base.Text.{Text, is_empty, strip, strip_id, NonSpace, codes}

abbrev pub is_digit : ℕ → Bool
is_digit c = leb 48 c && leb c 57

-- The digits with single underscores between them: the value and the count of the digits.
-- The flag says that a digit has to follow.
scan : Bool → ℕ → ℕ → Text → Option (ℕ × ℕ)
scan true acc n [] = none
scan false acc n [] = some (acc, n)
scan needed acc n (c ∷ s) =
    let digit = is_digit c in
    let rest =
      scan (not digit) (if digit then acc * 10 + (c - 48) else acc) (if digit then n + 1 else n)
        s in
    if digit || (c == b'_' && not needed) then rest else none

-- `sys.get_int_max_str_digits()`
abbrev pub max_str_digits : ℕ
max_str_digits = 4300

unsigned : Text → Option ℕ
unfolding scan
unsigned s = elim (scan true 0 0 s) [
  | none ↦ none
  | some (v, n) ↦ if ltb max_str_digits n then none else some v
]

signed : Text → Option ℤ
unfolding unsigned
signed [] = none
signed (c ∷ s) =
    if c == b'-'
    then elim (unsigned s) [ none ↦ none | some v ↦ some (neg v) ]
    else if c == b'+'
    then elim (unsigned s) [ none ↦ none | some v ↦ some (pos v) ]
    else elim (unsigned (c ∷ s)) [ none ↦ none | some v ↦ some (pos v) ]

-- `int(s)`, with `none` for the `ValueError`.
unfoldable pub parse_int : Text → Option ℤ
unfolding signed strip
parse_int s = signed (strip s)

-- The digits of `n` before `out`; enough fuel is more than `n`.
decimal_loop : ℕ → ℕ → Text → Text
decimal_loop zero n out = out
decimal_loop (suc f) n out =
    let rest = decimal_loop f (n / 10) ((48 + n % 10) ∷ out) in
    if ltb n 10 then (48 + n) ∷ out else rest

-- `str(n)`
unfoldable pub decimal : ℕ → Text
unfolding decimal_loop
decimal n = decimal_loop (n + 1) n []

width : ℕ → ℕ → ℕ
width zero n = 0
width (suc f) n = let rest = width f (n / 10) + 1 in if ltb n 10 then 1 else rest

scan-decimal_loop :
    (f n : ℕ) (out : Text)
    → n < f
    → scan true 0 0 (decimal_loop f n out) ≡ scan false n (width f n) out
unfolding scan decimal_loop width
scan-decimal_loop zero n out h = elim h [ ]
scan-decimal_loop (suc f) n out h =
    ground (arith, scan-decimal_loop f (n / 10) ((48 + n % 10) ∷ out))

width-le : (k f n : ℕ) → n < 10 ^ suc k → width f n ≤ suc k
unfolding width
width-le k zero n h = omega arith
width-le zero (suc f) n h = ground arith
width-le (suc k) (suc f) n h = ground (arith, pow-suc 10 (suc k), width-le k f (n / 10))

abbrev pub IsDigit : ℕ → Type 0
IsDigit c = is_digit c ≡ true

All-decimal_loop : (f n : ℕ) (out : Text) → All IsDigit out → All IsDigit (decimal_loop f n out)
unfolding decimal_loop
All-decimal_loop zero n out h = h
All-decimal_loop (suc f) n out h = ground (arith, All-decimal_loop f (n / 10) ((48 + n % 10) ∷ out))

pub All-decimal : (n : ℕ) → All IsDigit (decimal n)
unfolding decimal
All-decimal n = All-decimal_loop (n + 1) n [] tt

abbrev as_pos : Option ℕ → Option ℤ
as_pos none = none
as_pos (some v) = some (pos v)

signed_digits : (s : Text) → All IsDigit s → signed s ≡ as_pos (unsigned s)
unfolding signed
signed_digits [] h = refl
signed_digits (c ∷ s) h = ground arith

NonSpace-digit : (c : ℕ) → IsDigit c → NonSpace c
NonSpace-digit c h = ground arith

unsigned-decimal : (n : ℕ) → n < 10 ^ 4300 → unsigned (decimal n) ≡ some n
unfolding unsigned decimal
unsigned-decimal n h = ground (arith, scan-decimal_loop (n + 1) n [], width-le 4299 (n + 1) n h)

-- `int(str(n))` is `n`, as long as `int` takes that many digits.
pub parse_int-decimal : (n : ℕ) → n < 10 ^ 4300 → parse_int (decimal n) ≡ some (pos n)
unfolding parse_int
parse_int-decimal n h =
    let digits = All-decimal n in
    ap signed (strip_id (decimal n) (All-mono IsDigit NonSpace NonSpace-digit (decimal n) digits))
    ∙ signed_digits (decimal n) digits
    ∙ ap as_pos (unsigned-decimal n h)

decimal_loop_ne : (f n c : ℕ) (out : Text) → is_empty (decimal_loop f n (c ∷ out)) ≡ false
unfolding decimal_loop
decimal_loop_ne zero n c out = refl
decimal_loop_ne (suc f) n c out = ground (arith, decimal_loop_ne f (n / 10) (48 + n % 10) (c ∷ out))

pub decimal-nonempty : (n : ℕ) → is_empty (decimal n) ≡ false
unfolding decimal
decimal-nonempty n = rw add-one (ground (arith, decimal_loop_ne n (n / 10) (48 + n % 10) []))

parse_int_run :
    (parse_int (codes " +1_000 ") ≡ some (pos 1000))
    × (parse_int (codes "-0_7") ≡ some (neg 7))
    × (parse_int (codes "1__0") ≡ none)
    × (parse_int (codes "") ≡ none)
    × (decimal 1050 ≡ codes "1050")
unfolding parse_int decimal nat_eq
parse_int_run = (refl, refl, refl, refl, refl)
