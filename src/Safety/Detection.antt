-- ===== src/Safety/Detection.antt =====
-- Every keyword is found wherever it stands, however it is spaced.
use mathlib.Core.List.{append-nil}
use yeoun_ai.Base.{
  ℕ, ◌≡◌, refl, sym, ap, ◌∙◌, Bool, true, false, Option, none, some, List, [], ◌∷◌, ◌++◌, arith,
  contains, Eq, nat_eq, list_eq, is_some, leb, not, ◌&&◌,
}
use yeoun_ai.Base.Text.{Text, is_empty, has_infix_of_split}
use yeoun_ai.Safety.{
  block, crisis_keywords, forbidden_topic_keywords, squeeze, remove, normalize, occurs,
  check_crisis, filter_response,
}
use yeoun_ai.Safety.Matching.{Matched, check_crisis-Matched, filter_response-Matched}

-- A Hangul syllable has no case.
abbrev pub is_hangul : ℕ → Bool
is_hangul c = leb 0xac00 c && leb c 0xd7a3

abbrev pub every {ℓ} : {A : Type ℓ} → (A → Bool) → List A → Bool
every p [] = true
every p (x ∷ xs) = p x && every p xs

-- What the guards rely on of `str.lower`.
pub record IsLower (lower : Text → Text) : Type 0 where
  pub lower_nil : lower [] ≡ []
  -- Letters without case stay, and what stands on either side of them is lowered by itself.
  pub lower_around :
      (a k b : Text)
      → every is_hangul k ≡ true
      → is_empty k ≡ false
      → lower (a ++ (k ++ b)) ≡ lower a ++ (k ++ lower b)

abbrev is_uncased : Text → Bool
is_uncased k = every is_hangul (squeeze k) && not (is_empty (squeeze k))

keywords_uncased :
    (every is_uncased crisis_keywords ≡ true) × (every is_uncased forbidden_topic_keywords ≡ true)
unfolding remove nat_eq
keywords_uncased = (refl, refl)

every-contains {ℓ} :
    {A : Type ℓ} ⦃e : Eq A⦄ (p : A → Bool) (xs : List A) (a : A)
    → every p xs ≡ true
    → contains xs a ≡ true
    → p a ≡ true
every-contains p [] a h m = cc
every-contains p (x ∷ xs) a h m = ground (arith, every-contains p xs a)

module _ (lower : Text → Text) (law : IsLower lower) where
  normalize-uncased : (k : Text) → is_uncased k ≡ true → lower (squeeze k) ≡ squeeze k
  normalize-uncased k h =
      ap lower (sym (append-nil (squeeze k)))
      ∙ law.lower_around [] (squeeze k) [] (ground arith) (ground arith)
      ∙ rw law.lower_nil (append-nil (squeeze k))

  occurs_around :
      (text a k b : Text)
      → is_uncased k ≡ true
      → squeeze text ≡ a ++ (squeeze k ++ b)
      → occurs lower (normalize lower text) k ≡ true
  occurs_around text a k b h e =
      rw (normalize-uncased k h, e, law.lower_around a (squeeze k) b (ground arith) (ground arith))
        (ground (arith, has_infix_of_split (lower a) (squeeze k) (lower b)))

  not_none :
      (haystack k : Text) (keywords : List Text) (o : Option Text)
      → contains keywords k ≡ true
      → occurs lower haystack k ≡ true
      → Matched lower haystack keywords o
      → is_some o ≡ true
  not_none haystack k keywords (some j) m h spec = refl
  not_none haystack k [] none m h spec = cc
  not_none haystack k (j ∷ keywords) none m h spec =
      ground (arith, not_none haystack k keywords none)

  pub check_crisis-matches :
      (text a keyword b : Text)
      → contains crisis_keywords keyword ≡ true
      → squeeze text ≡ a ++ (squeeze keyword ++ b)
      → (check_crisis lower text).matched ≡ true
  check_crisis-matches text a keyword b m e =
      let spec = check_crisis-Matched lower law.lower_nil text in
      let h =
        occurs_around text a keyword b
          (every-contains is_uncased crisis_keywords keyword keywords_uncased.0 m) e in
      spec.1 ∙ not_none (normalize lower text) keyword crisis_keywords _ m h spec.0

  -- A text in which a crisis keyword stands anywhere, with any spaces and tabs in or around it, is
  -- blocked.
  pub check_crisis-blocks :
      (text a keyword b : Text)
      → contains crisis_keywords keyword ≡ true
      → squeeze text ≡ a ++ (squeeze keyword ++ b)
      → (check_crisis lower text).action ≡ block
  check_crisis-blocks text a keyword b m e =
      let spec = check_crisis-Matched lower law.lower_nil text in
      let h =
        occurs_around text a keyword b
          (every-contains is_uncased crisis_keywords keyword keywords_uncased.0 m) e in
      spec.2 ∙ rw (not_none (normalize lower text) keyword crisis_keywords _ m h spec.0)

  -- A response in which a forbidden keyword stands anywhere, with any spaces and tabs in or around
  -- it, is reported as matched.
  pub filter_response-matches :
      (text a keyword b : Text)
      → contains forbidden_topic_keywords keyword ≡ true
      → squeeze text ≡ a ++ (squeeze keyword ++ b)
      → (filter_response lower text).matched ≡ true
  filter_response-matches text a keyword b m e =
      let spec = filter_response-Matched lower law.lower_nil text in
      let h =
        occurs_around text a keyword b
          (every-contains is_uncased forbidden_topic_keywords keyword keywords_uncased.1 m) e in
      spec.2 ∙ not_none (normalize lower text) keyword forbidden_topic_keywords _ m h spec.1
