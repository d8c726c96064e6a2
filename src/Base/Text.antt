-- ===== src/Base/Text.antt =====
-- Python's `str` as its list of code points, with the methods that the program calls.
use Prim.Native.Nat.{ℕ}
use Prim.Native.Char.{code}
use Prim.Native.String.{String}
use mathlib.Core.Path.{◌≡◌, refl}
use mathlib.Core.Logic.{inl, inr}
use mathlib.Core.Bool.{Bool, true, false, ◌&&◌, ◌||◌}
use mathlib.Core.List.{List, [], ◌∷◌, ◌++◌, reverse, reverse-append, reverse-reverse}
use native.Mathlib.Omega.{arith}
use yeoun_ai.Base.Tests.{ltb, leb, if◌then◌else◌, Bool-cases}
use yeoun_ai.Base.Equality.{Eq, ◌==◌, nat_eq}
use yeoun_ai.Base.Lists.{All, All-append}

abbrev pub Text : Type 0
Text = List ℕ

-- The code points of a literal.
abbrev pub codes : String → Text
codes String.[] = []
codes (String.◌∷◌ c s) = code c ∷ codes s

abbrev pub is_empty {ℓ} : {A : Type ℓ} → List A → Bool
is_empty [] = true
is_empty (x ∷ xs) = false

module _ {ℓ} {A : Type ℓ} ⦃e : Eq A⦄ where
  -- `s.startswith(prefix)`
  unfoldable pub starts_with : List A → List A → Bool
  starts_with s [] = true
  starts_with [] (p ∷ ps) = false
  starts_with (c ∷ s) (p ∷ ps) = c == p && starts_with s ps

  -- `needle in s`
  unfoldable pub has_infix : List A → List A → Bool
  unfolding starts_with
  has_infix needle [] = is_empty needle
  has_infix needle (c ∷ s) = starts_with (c ∷ s) needle || has_infix needle s

  pub starts_with-append : (p s : List A) → starts_with (p ++ s) p ≡ true
  unfolding starts_with
  starts_with-append [] [] = refl
  starts_with-append [] (c ∷ s) = refl
  starts_with-append (c ∷ p) s = ground (arith, starts_with-append p s)

  pub starts_with_split : (s p : List A) → starts_with s p ≡ true → (r : List A) × (s ≡ p ++ r)
  unfolding starts_with
  starts_with_split s [] h = (s, refl)
  starts_with_split [] (p ∷ ps) h = cc
  starts_with_split (c ∷ s) (p ∷ ps) h =
      let (r, e) = starts_with_split s ps (ground arith) in (r, ground arith)

  -- Membership of a part is exactly a split of the text around it.
  pub has_infix_of_split : (l needle r : List A) → has_infix needle (l ++ (needle ++ r)) ≡ true
  unfolding has_infix
  has_infix_of_split [] [] [] = refl
  has_infix_of_split [] [] (c ∷ r) = refl
  has_infix_of_split [] (c ∷ n) r = ground (arith, starts_with-append (c ∷ n) r)
  has_infix_of_split (c ∷ l) needle r = ground (arith, has_infix_of_split l needle r)

  pub split_of_has_infix :
      (needle s : List A)
      → has_infix needle s ≡ true
      → (l : List A) × (r : List A) × (s ≡ l ++ (needle ++ r))
  unfolding has_infix
  split_of_has_infix [] [] h = ([], [], refl)
  split_of_has_infix (n ∷ needle) [] h = cc
  split_of_has_infix needle (c ∷ s) h = elim (Bool-cases (starts_with (c ∷ s) needle)) [
    | inl here ↦ let (r, e) = starts_with_split (c ∷ s) needle here in ([], r, e)
    | inr later ↦
        let (l, r, e) = split_of_has_infix needle s (ground arith) in (c ∷ l, r, ground arith)
  ]

-- `str.isspace`, by which `strip` and `int` skip.
abbrev pub is_space : ℕ → Bool
is_space c =
    (leb 9 c && leb c 13)
    || (leb 28 c && leb c 32)
    || c == 133
    || c == 160
    || c == 5760
    || (leb 8192 c && leb c 8202)
    || c == 8232
    || c == 8233
    || c == 8239
    || c == 8287
    || c == 12288

-- The order of strings, by code points.
unfoldable pub text_ltb : Text → Text → Bool
text_ltb s [] = false
text_ltb [] (d ∷ t) = true
text_ltb (c ∷ s) (d ∷ t) = let rest = text_ltb s t in if c == d then rest else ltb c d

-- `s.lstrip()`, `s.strip()`
unfoldable pub lstrip : Text → Text
lstrip [] = []
lstrip (c ∷ s) = let rest = lstrip s in if is_space c then rest else c ∷ s

unfoldable pub strip : Text → Text
unfolding lstrip
strip s = reverse (lstrip (reverse (lstrip s)))

abbrev pub NonSpace : ℕ → Type 0
NonSpace c = is_space c ≡ false

pub All-reverse {ℓ} : {A : Type 0} (P : A → Type ℓ) (xs : List A) → All P xs → All P (reverse xs)
All-reverse P [] h = tt
All-reverse P (x ∷ xs) h =
    rw (reverse-append (x ∷ []) xs)
      (All-append P (reverse xs) (x ∷ []) (All-reverse P xs h.1) (h.0, tt))

lstrip_id : (s : Text) → All NonSpace s → lstrip s ≡ s
unfolding lstrip
lstrip_id [] h = refl
lstrip_id (c ∷ s) h = rw h.0

-- A text with no white space is left alone.
pub strip_id : (s : Text) → All NonSpace s → strip s ≡ s
unfolding strip
strip_id s h =
    rw (lstrip_id s h, lstrip_id (reverse s) (All-reverse NonSpace s h)) (reverse-reverse s)
