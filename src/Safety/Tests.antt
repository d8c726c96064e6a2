-- ===== src/Safety/Tests.antt =====
-- The guards on short texts.
use yeoun_ai.Base.{◌∷◌, ◌≡◌, refl, some, none, nat_eq, list_eq, is_some, if◌then◌else◌}
use yeoun_ai.Base.Text.{codes}
use yeoun_ai.Safety.{
  block, pass, remove, normalize, check_crisis, filter_response, crisis_keywords,
  forbidden_topic_keywords,
}
use yeoun_ai.Safety.Matching.{Matched, check_crisis-Matched, filter_response-Matched}
use yeoun_ai.Safety.Spacing.{empty, same, space_left, tab_right, guards_spacing}
use yeoun_ai.Safety.Detection.{check_crisis-blocks}
use yeoun_ai.Fixtures.{lower_ascii, IsLower-lower_ascii}

check_crisis-Matched_example :
    let r = check_crisis lower_ascii (codes "투신") in
    Matched lower_ascii (normalize lower_ascii (codes "투신")) crisis_keywords r.matched_keyword
    × (r.matched ≡ is_some r.matched_keyword)
    × (r.action ≡ (if is_some r.matched_keyword then block else pass))
unfolding lower_ascii
check_crisis-Matched_example = check_crisis-Matched lower_ascii refl (codes "투신")

filter_response-Matched_example :
    let r = filter_response lower_ascii (codes "형 보다 낫다") in
    (r.text ≡ codes "형 보다 낫다")
    × Matched lower_ascii
        (normalize lower_ascii (codes "형 보다 낫다"))
        forbidden_topic_keywords
        r.matched_keyword
    × (r.matched ≡ is_some r.matched_keyword)
    × (r.category ≡ (if is_some r.matched_keyword then some (codes "forbidden_topic") else none))
unfolding lower_ascii
filter_response-Matched_example = filter_response-Matched lower_ascii refl (codes "형 보다 낫다")

guards_spacing_example :
    (check_crisis lower_ascii (codes "자 해") ≡ check_crisis lower_ascii (9 ∷ codes "자해"))
    × ((filter_response lower_ascii (codes "자 해")).matched_keyword
        ≡ (filter_response lower_ascii (9 ∷ codes "자해")).matched_keyword)
unfolding lower_ascii
guards_spacing_example =
    guards_spacing lower_ascii refl (codes "자 해") (9 ∷ codes "자해")
      (tab_right (same 51088 (space_left (same 54644 empty))))

check_crisis-blocks_example : (check_crisis lower_ascii (codes "나 죽고  싶어")).action ≡ block
unfolding remove nat_eq list_eq
check_crisis-blocks_example =
    check_crisis-blocks lower_ascii IsLower-lower_ascii (codes "나 죽고  싶어") (codes "나")
      (codes "죽고 싶") (codes "어") refl refl
