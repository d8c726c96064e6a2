-- ===== src/Safety/Spacing.antt =====
-- Spaces and tabs make no difference to either guard.
use yeoun_ai.Base.{
  ℕ, ◌==◌, nat_eq, Bool-cases, inl, inr, ◌≡◌, refl, sym, ap, ◌∙◌, Option, none, some, List, [], ◌∷◌,
  arith,
}
use yeoun_ai.Base.Text.{Text, has_infix}
use yeoun_ai.Safety.{
  crisis_keywords, forbidden_topic_keywords, squeeze, remove, normalize, first_match, crisis_of,
  filtered_of, check_crisis, filter_response,
}

-- Two texts that are the same but for spaces and tabs, put in anywhere.
pub data Spaced : Text → Text → Type 0 where
  empty : Spaced [] []
  same : {s t : Text} (c : ℕ) → Spaced s t → Spaced (c ∷ s) (c ∷ t)
  space_left : {s t : Text} → Spaced s t → Spaced (32 ∷ s) t
  space_right : {s t : Text} → Spaced s t → Spaced s (32 ∷ t)
  tab_left : {s t : Text} → Spaced s t → Spaced (9 ∷ s) t
  tab_right : {s t : Text} → Spaced s t → Spaced s (9 ∷ t)

Spaced-squeeze : {s t : Text} → Spaced s t → squeeze s ≡ squeeze t
unfolding remove nat_eq
Spaced-squeeze empty = refl
Spaced-squeeze (same c h) = elim (Bool-cases (c == 32)) [
  | inl space ↦ rw space (Spaced-squeeze h)
  | inr other ↦ elim (Bool-cases (c == 9)) [
    | inl tab ↦ rw (other, tab) (Spaced-squeeze h)
    | inr plain ↦ rw (other, plain) (ap (λ x. c ∷ x) (Spaced-squeeze h))
  ]
]
Spaced-squeeze (space_left h) = Spaced-squeeze h
Spaced-squeeze (space_right h) = Spaced-squeeze h
Spaced-squeeze (tab_left h) = Spaced-squeeze h
Spaced-squeeze (tab_right h) = Spaced-squeeze h

module _ (lower : Text → Text) (lower_nil : lower [] ≡ []) where
  first_match-nil : (keywords : List Text) → first_match lower (lower []) keywords ≡ none
  unfolding first_match has_infix
  first_match-nil [] = refl
  first_match-nil (k ∷ keywords) =
      rw lower_nil (ground (arith, lower_nil, first_match-nil keywords))

  -- The test for an empty text changes no result.
  pub check_crisis-eq :
      (text : Text)
      → check_crisis lower text
        ≡ crisis_of (first_match lower (normalize lower text) crisis_keywords)
  unfolding check_crisis remove
  check_crisis-eq [] = ap crisis_of (sym (first_match-nil crisis_keywords))
  check_crisis-eq (c ∷ text) = refl

  pub filter_response-eq :
      (text : Text)
      → filter_response lower text
        ≡ filtered_of text (first_match lower (normalize lower text) forbidden_topic_keywords)
  unfolding filter_response remove
  filter_response-eq [] = ap (filtered_of []) (sym (first_match-nil forbidden_topic_keywords))
  filter_response-eq (c ∷ text) = refl

  -- If `lower` leaves the empty text as it is: two texts that are the same but for spaces and tabs
  -- get the same verdict of the input guard, and the same keyword of the output guard.
  pub guards_spacing :
      (s t : Text)
      → Spaced s t
      → (check_crisis lower s ≡ check_crisis lower t)
        × ((filter_response lower s).matched_keyword ≡ (filter_response lower t).matched_keyword)
  guards_spacing s t h =
      let e = Spaced-squeeze h in
      (
        check_crisis-eq s
            ∙ ap (λ x. crisis_of (first_match lower (lower x) crisis_keywords)) e
            ∙ sym (check_crisis-eq t),
        ap (λ r. r.matched_keyword) (filter_response-eq s)
            ∙ keyword_eq (first_match lower (normalize lower s) forbidden_topic_keywords)
                (first_match lower (normalize lower t) forbidden_topic_keywords)
                (ap (λ x. first_match lower (lower x) forbidden_topic_keywords) e)
            ∙ sym (ap (λ r. r.matched_keyword) (filter_response-eq t)),
      )
    where
      keyword_eq :
          (o p : Option Text)
          → o ≡ p
          → (filtered_of s o).matched_keyword ≡ (filtered_of t p).matched_keyword
      keyword_eq none none e = refl
      keyword_eq none (some k) e = cc
      keyword_eq (some k) none e = cc
      keyword_eq (some k) (some j) e = e
