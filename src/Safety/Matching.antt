-- ===== src/Safety/Matching.antt =====
-- Both guards report the first keyword that occurs, and none exactly when none occurs.
use yeoun_ai.Base.{
  ◌≡◌, refl, Bool, true, false, Option, none, some, List, [], ◌∷◌, ◌++◌, arith, All, if◌then◌else◌,
  nat_eq, is_some,
}
use yeoun_ai.Base.Text.{Text, codes, has_infix}
use yeoun_ai.Safety.{
  block, pass, crisis_keywords, forbidden_topic_keywords, remove, normalize, occurs, first_match,
  crisis_of, filtered_of, check_crisis, filter_response,
}

module _ (lower : Text → Text) where
  -- `keyword` stands in the list, occurs, and none before it does.
  pub record IsFirst (haystack : Text) (keywords : List Text) (keyword : Text) : Type 0 where
    pub before : List Text
    pub after : List Text
    pub splits : keywords ≡ before ++ keyword ∷ after
    pub occurring : occurs lower haystack keyword ≡ true
    pub earlier : All (λ k. occurs lower haystack k ≡ false) before

  -- What `first_match` says of a list.
  abbrev pub Matched : Text → List Text → Option Text → Type 0
  Matched haystack keywords none = All (λ k. occurs lower haystack k ≡ false) keywords
  Matched haystack keywords (some keyword) = IsFirst haystack keywords keyword

  Matched-cons :
      (haystack keyword : Text) (keywords : List Text) (o : Option Text)
      → occurs lower haystack keyword ≡ false
      → Matched haystack keywords o
      → Matched haystack (keyword ∷ keywords) o
  Matched-cons haystack keyword keywords none h m = (h, m)
  Matched-cons haystack keyword keywords (some k) h m = record {
    before = keyword ∷ m.before;
    after = m.after;
    splits = ground (arith, m.splits);
    occurring = m.occurring;
    earlier = (h, m.earlier);
  }

  Matched-if :
      (haystack keyword : Text) (keywords : List Text) (b : Bool)
      → occurs lower haystack keyword ≡ b
      → Matched haystack keywords (first_match lower haystack keywords)
      → Matched haystack
          (keyword ∷ keywords)
          (if b then some keyword else first_match lower haystack keywords)
  Matched-if haystack keyword keywords true h m = record {
    before = [];
    after = keywords;
    splits = refl;
    occurring = h;
    earlier = tt;
  }
  Matched-if haystack keyword keywords false h m =
      Matched-cons haystack keyword keywords (first_match lower haystack keywords) h m

  pub first_match-Matched :
      (haystack : Text) (keywords : List Text)
      → Matched haystack keywords (first_match lower haystack keywords)
  unfolding first_match
  first_match-Matched haystack [] = tt
  first_match-Matched haystack (keyword ∷ keywords) =
      Matched-if haystack keyword keywords (occurs lower haystack keyword) refl
        (first_match-Matched haystack keywords)

  crisis_parts :
      (haystack : Text) (o : Option Text)
      → Matched haystack crisis_keywords o
      → let r = crisis_of o in
        Matched haystack crisis_keywords r.matched_keyword
        × (r.matched ≡ is_some r.matched_keyword)
        × (r.action ≡ (if is_some r.matched_keyword then block else pass))
  crisis_parts haystack none m = (m, refl, refl)
  crisis_parts haystack (some k) m = (m, refl, refl)

  filtered_parts :
      (text haystack : Text) (o : Option Text)
      → Matched haystack forbidden_topic_keywords o
      → let r = filtered_of text o in
        (r.text ≡ text)
        × Matched haystack forbidden_topic_keywords r.matched_keyword
        × (r.matched ≡ is_some r.matched_keyword)
        × (r.category
            ≡ (if is_some r.matched_keyword then some (codes "forbidden_topic") else none))
  filtered_parts text haystack none m = (refl, m, refl, refl)
  filtered_parts text haystack (some k) m = (refl, m, refl, refl)

  module _ (lower_nil : lower [] ≡ []) where
    nothing_occurs : (keywords : List Text) → Matched (normalize lower []) keywords none
    unfolding has_infix remove
    nothing_occurs [] = tt
    nothing_occurs (keyword ∷ keywords) = (rw lower_nil (ground arith), nothing_occurs keywords)

    -- `check_crisis` blocks with the first keyword of the list that occurs in the normalized text,
    -- and passes exactly when none of them does.
    pub check_crisis-Matched :
        (text : Text)
        → let r = check_crisis lower text in
          Matched (normalize lower text) crisis_keywords r.matched_keyword
          × (r.matched ≡ is_some r.matched_keyword)
          × (r.action ≡ (if is_some r.matched_keyword then block else pass))
    unfolding check_crisis
    check_crisis-Matched [] = (nothing_occurs crisis_keywords, refl, refl)
    check_crisis-Matched (c ∷ text) =
        crisis_parts (normalize lower (c ∷ text))
          (first_match lower (normalize lower (c ∷ text)) crisis_keywords)
          (first_match-Matched (normalize lower (c ∷ text)) crisis_keywords)

    -- `filter_response` returns the text itself, with the first keyword of the list that occurs in
    -- the normalized text, and with none exactly when none of them does.
    pub filter_response-Matched :
        (text : Text)
        → let r = filter_response lower text in
          (r.text ≡ text)
          × Matched (normalize lower text) forbidden_topic_keywords r.matched_keyword
          × (r.matched ≡ is_some r.matched_keyword)
          × (r.category
              ≡ (if is_some r.matched_keyword then some (codes "forbidden_topic") else none))
    unfolding filter_response
    filter_response-Matched [] = (refl, nothing_occurs forbidden_topic_keywords, refl, refl)
    filter_response-Matched (c ∷ text) =
        filtered_parts (c ∷ text) (normalize lower (c ∷ text))
          (first_match lower (normalize lower (c ∷ text)) forbidden_topic_keywords)
          (first_match-Matched (normalize lower (c ∷ text)) forbidden_topic_keywords)
