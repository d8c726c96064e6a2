-- ===== src/Prompts/Tests.antt =====
-- Answers to sort.
use yeoun_ai.Base.{ℕ, ◌≡◌, some, none, List, [], ◌∷◌}
use yeoun_ai.Base.Text.{codes}
use yeoun_ai.Db.{InterviewAnswer}
use yeoun_ai.Db.Repository.{sort_answers}
use yeoun_ai.Prompts.Order.{IsSorted, answers_to, sort_answers_lem}

abbrev answers : List InterviewAnswer
answers =
    record {
      interview_id = 1;
      persona_id = 7;
      question_number = 3;
      answer_text = some (codes "a");
      created_at = 1;
    }
    ∷ record {
      interview_id = 2;
      persona_id = 7;
      question_number = 1;
      answer_text = none;
      created_at = 1;
    }
    ∷ record {
      interview_id = 3;
      persona_id = 7;
      question_number = 3;
      answer_text = some (codes "b");
      created_at = 1;
    }
    ∷ []

sort_answers_lem_example :
    IsSorted (sort_answers answers)
    × ((n : ℕ) → answers_to n (sort_answers answers) ≡ answers_to n answers)
sort_answers_lem_example = sort_answers_lem answers
