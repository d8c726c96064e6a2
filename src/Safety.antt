-- ===== src/Safety.antt =====
-- app/safety/keywords.py, input_guard.py and output_guard.py. `str.lower` follows the Unicode
-- tables; it is the parameter `lower`.
pub mod Matching
pub mod Spacing
pub mod Detection
mod Tests
use yeoun_ai.Base.{
  ℕ, Bool, true, false, not, ◌&&◌, ◌||◌, Option, none, some, List, [], ◌∷◌, if◌then◌else◌, ◌==◌,
  nat_eq,
}
use yeoun_ai.Base.Text.{Text, codes, is_empty, has_infix}

abbrev pub crisis_keywords : List Text
crisis_keywords =
    codes "죽고 싶"
    ∷ codes "죽어버리"
    ∷ codes "죽을래"
    ∷ codes "자살"
    ∷ codes "자해"
    ∷ codes "끝내고 싶"
    ∷ codes "사라지고 싶"
    ∷ codes "살 가치"
    ∷ codes "살 이유"
    ∷ codes "목숨을 끊"
    ∷ codes "생을 마감"
    ∷ codes "극단적 선택"
    ∷ codes "목매"
    ∷ codes "투신"
    ∷ codes "안락사"
    ∷ []

abbrev pub forbidden_topic_keywords : List Text
forbidden_topic_keywords =
    codes "형보다"
    ∷ codes "누나보다"
    ∷ codes "동생보다"
    ∷ codes "언니보다"
    ∷ codes "오빠보다"
    ∷ codes "남편보다"
    ∷ codes "아내보다"
    ∷ codes "와이프보다"
    ∷ []

-- `text.replace(" ", "").replace("\t", "")`
unfoldable pub remove : ℕ → Text → Text
remove x [] = []
remove x (c ∷ s) = let rest = remove x s in if c == x then rest else c ∷ rest

abbrev pub squeeze : Text → Text
squeeze text = remove 9 (remove 32 text)

pub data Action : Type 0 where
  block pass : Action

pub record CrisisResult : Type 0 where
  pub matched : Bool
  pub matched_keyword : Option Text
  pub action : Action

pub record FilteredResponse : Type 0 where
  pub text : Text
  pub matched : Bool
  pub matched_keyword : Option Text
  pub category : Option Text

abbrev pub crisis_of : Option Text → CrisisResult
crisis_of none = record { matched = false; matched_keyword = none; action = pass }
crisis_of (some keyword) = record { matched = true; matched_keyword = some keyword; action = block }

abbrev pub filtered_of : Text → Option Text → FilteredResponse
filtered_of text none = record {
  text = text;
  matched = false;
  matched_keyword = none;
  category = none;
}
filtered_of text (some keyword) = record {
  text = text;
  matched = true;
  matched_keyword = some keyword;
  category = some (codes "forbidden_topic");
}

module _ (lower : Text → Text) where
  abbrev pub normalize : Text → Text
  normalize text = lower (squeeze text)

  -- `needle and needle in haystack`
  abbrev pub occurs : Text → Text → Bool
  occurs haystack keyword =
      not (is_empty (normalize keyword)) && has_infix (normalize keyword) haystack

  -- The loop of both guards: the first keyword that matches.
  unfoldable pub first_match : Text → List Text → Option Text
  first_match haystack [] = none
  first_match haystack (keyword ∷ keywords) =
      let rest = first_match haystack keywords in
      if occurs haystack keyword then some keyword else rest

  unfoldable pub check_crisis : Text → CrisisResult
  check_crisis text =
      if is_empty text
      then crisis_of none
      else crisis_of (first_match (normalize text) crisis_keywords)

  unfoldable pub filter_response : Text → FilteredResponse
  filter_response text =
      if is_empty text
      then filtered_of text none
      else filtered_of text (first_match (normalize text) forbidden_topic_keywords)
