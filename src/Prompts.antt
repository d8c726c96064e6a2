-- ===== src/Prompts.antt =====
-- app/prompts/system_prompt.py; the date is its text in ISO format.
pub mod Order
mod Tests
use yeoun_ai.Base.{ℕ, Bool, true, false, Option, none, some, List, [], ◌∷◌, ◌++◌, if◌then◌else◌}
use yeoun_ai.Base.Text.{Text, codes, is_empty}
use yeoun_ai.Base.Number.{decimal}
use yeoun_ai.Db.{PersonaRecord, InterviewAnswer}
use yeoun_ai.Db.Repository.{sort_answers}

-- `f"{ans.question_number}. {ans.answer_text}"`, for the answers with a text.
abbrev pub line_of : InterviewAnswer → Option Text → List Text
line_of a none = []
line_of a (some text) =
    if is_empty text then [] else (decimal a.question_number ++ (codes ". " ++ text)) ∷ []

unfoldable pub answer_lines : List InterviewAnswer → List Text
answer_lines [] = []
answer_lines (a ∷ answers) = line_of a a.answer_text ++ answer_lines answers

abbrev pub interview_lines : List InterviewAnswer → List Text
interview_lines [] = []
interview_lines (a ∷ answers) =
    codes "# 생전 인터뷰 답변 (사실 근거)" ∷ (answer_lines (sort_answers (a ∷ answers)) ++ ([] ∷ []))

abbrev head_lines : PersonaRecord → Text → List Text
head_lines persona today =
    codes "당신은 사용자의 고인을 대신하여 대화하는 디지털 페르소나입니다."
    ∷ []
    ∷ codes "# 페르소나 정보"
    ∷ (codes "- 이름: " ++ persona.name)
    ∷ (codes "- 호칭: " ++ persona.nickname)
    ∷ (codes "- 오늘 날짜: " ++ today)
    ∷ []
    ∷ []

abbrev guideline_lines : PersonaRecord → List Text
guideline_lines persona =
    codes "# 응답 가이드라인"
    ∷ (codes "- 사용자를 부를 때는 자연스럽게 대화하되, 자신을 칭할 때 " ++ (persona.nickname ++ codes " 의 어투를 유지하세요."))
    ∷ codes "- 위 인터뷰 답변을 근거로만 사실을 말하세요. 모르는 일은 만들어내지 말고 \"잘 기억나지 않는구나\" 처럼 솔직히 답하세요."
    ∷ codes "- 다른 형제·배우자와 사용자를 비교하지 마세요."
    ∷ codes "- 사용자가 자해·자살 등 위기 신호를 보내면, 부드럽게 전문 상담 자원으로 안내하세요."
    ∷ codes "- 답변은 짧고 따뜻한 어조로 1~3 문장 안에서 끝내세요."
    ∷ []

-- `"\n".join(lines)`
abbrev pub join_lines : List Text → Text
join_lines [] = []
join_lines (line ∷ []) = line
join_lines (line ∷ next ∷ lines) = line ++ (10 ∷ join_lines (next ∷ lines))

unfoldable pub build_system_prompt : PersonaRecord → List InterviewAnswer → Text → Text
build_system_prompt persona interviews today =
    join_lines (head_lines persona today ++ (interview_lines interviews ++ guideline_lines persona))
