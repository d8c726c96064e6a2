-- ===== src/Storage/Range/Echo.antt =====
-- `parse_range` on the three forms of the header that its comment lists.
use yeoun_ai.Base.{
  ℕ, suc, zero, ◌-◌, ◌^◌, ◌<◌, min, ◌≡◌, refl, ap, ◌∙◌, false, Option, some, [], ◌∷◌, ◌++◌, arith,
  All, All-append, All-mono, contains, ◌==◌, nat_eq, leb, ltb, if◌then◌else◌, ◌&&◌,
}
use yeoun_ai.Base.Int.{pos}
use yeoun_ai.Base.Text.{Text, codes, strip_id, starts_with-append, NonSpace}
use yeoun_ai.Base.Number.{IsDigit, decimal, decimal-nonempty, All-decimal, parse_int-decimal}
use yeoun_ai.Storage.Range.{
  part, not_satisfiable, outside_file, bad_number, bounds, before_dash, after_dash, try_bounds,
  check_bounds, except_value_error, suffix_bounds, parse_range,
}

-- The characters of a header that is made of numbers and a dash.
abbrev IsPlain : ℕ → Type 0
IsPlain c = (NonSpace c) × ((b',' == c) ≡ false)

IsPlain-digit : (c : ℕ) → IsDigit c → IsPlain c
IsPlain-digit c h = (ground arith, ground arith)

before_dash_digits : (s t : Text) → All IsDigit s → before_dash (s ++ b'-' ∷ t) ≡ s
unfolding before_dash
before_dash_digits [] t h = ground arith
before_dash_digits (c ∷ s) t h = ground (arith, before_dash_digits s t)

after_dash_digits : (s t : Text) → All IsDigit s → after_dash (s ++ b'-' ∷ t) ≡ t
unfolding after_dash
after_dash_digits [] t h = ground arith
after_dash_digits (c ∷ s) t h = ground (arith, after_dash_digits s t)

no_comma : (s : Text) → All IsPlain s → contains s b',' ≡ false
no_comma [] h = refl
no_comma (c ∷ s) h = ground (arith, no_comma s h.1)

abbrev unit : Text
unit = codes "bytes="

-- A header of the right unit, with plain characters: only the two parts count.
parse_range_parts :
    (s t : Text) (size : ℕ)
    → All IsDigit s
    → All IsDigit t
    → parse_range (some (unit ++ s ++ b'-' ∷ t)) size
      ≡ except_value_error (try_bounds s t size) size
unfolding parse_range
parse_range_parts s t size hs ht =
    let plain : All IsPlain (s ++ b'-' ∷ t) =
      All-append IsPlain s (b'-' ∷ t) (All-mono IsDigit IsPlain IsPlain-digit s hs)
        ((ground arith, ground arith), All-mono IsDigit IsPlain IsPlain-digit t ht) in
    let spec : Text = s ++ b'-' ∷ t in
    ground (
      arith,
      starts_with-append unit spec,
      strip_id spec (All-mono IsPlain NonSpace (λ c h. h.0) spec plain),
      no_comma spec plain,
      before_dash_digits s t hs,
      after_dash_digits s t hs,
    )

-- `int` reads back each number of at most this many digits.
abbrev pub IsReadable : ℕ → Type 0
IsReadable n = n < 10 ^ 4300

-- `Range: bytes={start}-{end}`
abbrev pub closed_header : ℕ → ℕ → Option Text
closed_header start end = some (codes "bytes=" ++ decimal start ++ b'-' ∷ decimal end)

-- `Range: bytes={start}-`
abbrev pub open_header : ℕ → Option Text
open_header start = some (codes "bytes=" ++ decimal start ++ b'-' ∷ [])

-- `Range: bytes=-{n}`
abbrev pub suffix_header : ℕ → Option Text
suffix_header n = some (codes "bytes=-" ++ decimal n)

try_bounds-closed :
    (start end size : ℕ)
    → IsReadable start
    → IsReadable end
    → try_bounds (decimal start) (decimal end) size ≡ bounds (pos start) (pos end)
unfolding try_bounds
try_bounds-closed start end size hs he = rw (
  decimal-nonempty start,
  parse_int-decimal start hs,
  decimal-nonempty end,
  parse_int-decimal end he,
)

check_bounds-closed :
    (start end size : ℕ)
    → check_bounds (pos start) (pos end) size ≡ (
        if leb start end && ltb start size
        then part (pos start) (pos (min end (size - 1)))
        else not_satisfiable outside_file)
unfolding check_bounds
check_bounds-closed start end zero = ground arith
check_bounds-closed start end (suc size) = ground arith

try_bounds-suffix :
    (n size : ℕ) → IsReadable n → try_bounds [] (decimal n) size ≡ suffix_bounds size (pos n)
unfolding try_bounds
try_bounds-suffix n size hn = rw (parse_int-decimal n hn)

suffix-closed :
    (n size : ℕ)
    → except_value_error (suffix_bounds size (pos n)) size ≡ (
        if leb n 0
        then not_satisfiable bad_number
        else if leb size 0
        then not_satisfiable outside_file
        else part (pos (size - n)) (pos (size - 1)))
unfolding suffix_bounds except_value_error
suffix-closed zero size = ground arith
suffix-closed (suc n) zero = ground arith
suffix-closed (suc n) (suc size) = ground arith

-- A header with both bounds is accepted exactly when they are in order and the first lies in the
-- file; the answer is those bounds, the second cut at the last byte. Any other is outside the file.
pub parse_range-closed :
    (start end size : ℕ)
    → IsReadable start
    → IsReadable end
    → parse_range (closed_header start end) size ≡ (
        if leb start end && ltb start size
        then part (pos start) (pos (min end (size - 1)))
        else not_satisfiable outside_file)
parse_range-closed start end size hs he =
    parse_range_parts (decimal start) (decimal end) size (All-decimal start) (All-decimal end)
    ∙ ap (λ b. except_value_error b size) (try_bounds-closed start end size hs he)
    ∙ unfold except_value_error in check_bounds-closed start end size

-- A header with the first bound alone asks for the rest of the file, if it lies in the file.
pub parse_range-open :
    (start size : ℕ)
    → IsReadable start
    → parse_range (open_header start) size
      ≡ (if ltb start size then part (pos start) (pos (size - 1)) else not_satisfiable outside_file)
parse_range-open start size hs =
    parse_range_parts (decimal start) [] size (All-decimal start) tt
    ∙ unfold try_bounds except_value_error in
      ground (arith, decimal-nonempty start, parse_int-decimal start hs)

-- A suffix asks for the last `n` bytes, or all of them if there are fewer. No suffix of an empty
-- file can be had, and none of length 0 of any file; that one is reported as a bad number.
pub parse_range-suffix :
    (n size : ℕ)
    → IsReadable n
    → parse_range (suffix_header n) size ≡ (
        if leb n 0
        then not_satisfiable bad_number
        else if leb size 0
        then not_satisfiable outside_file
        else part (pos (size - n)) (pos (size - 1)))
parse_range-suffix n size hn =
    parse_range_parts [] (decimal n) size tt (All-decimal n)
    ∙ ap (λ b. except_value_error b size) (try_bounds-suffix n size hn)
    ∙ suffix-closed n size
