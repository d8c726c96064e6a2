-- ===== src/Prompts/Order.antt =====
-- The order of the interview answers.
use yeoun_ai.Base.{
  ℕ, ◌≤◌, ◌≡◌, refl, ap, ◌∙◌, List, [], ◌∷◌, arith, if◌then◌else◌, leb, ◌==◌, nat_eq, All,
  Bool-cases, inl, inr,
}
use yeoun_ai.Db.{InterviewAnswer}
use yeoun_ai.Db.Repository.{insert_answer, sort_answers}

-- Each answer's number is at most those that follow.
abbrev pub IsSorted : List InterviewAnswer → Type 0
IsSorted [] = Unit
IsSorted (a ∷ answers) =
    All (λ (b : InterviewAnswer). a.question_number ≤ b.question_number) answers × IsSorted answers

-- The answers to one question, in their order.
abbrev pub answers_to : ℕ → List InterviewAnswer → List InterviewAnswer
answers_to n [] = []
answers_to n (a ∷ answers) =
    let rest = answers_to n answers in if a.question_number == n then a ∷ rest else rest

All-insert_answer :
    (n : ℕ) (a : InterviewAnswer) (answers : List InterviewAnswer)
    → n ≤ a.question_number
    → All (λ (b : InterviewAnswer). n ≤ b.question_number) answers
    → All (λ (b : InterviewAnswer). n ≤ b.question_number) (insert_answer a answers)
unfolding insert_answer
All-insert_answer n a [] h hs = (h, tt)
All-insert_answer n a (b ∷ bs) h hs = elim (Bool-cases (leb a.question_number b.question_number)) [
  | inl le ↦ rw (insert_answer, le) (h, hs)
  | inr gt ↦ rw (insert_answer, gt) (hs.0, All-insert_answer n a bs h hs.1)
]

All-at_least :
    (m n : ℕ) (answers : List InterviewAnswer)
    → m ≤ n
    → All (λ (b : InterviewAnswer). n ≤ b.question_number) answers
    → All (λ (b : InterviewAnswer). m ≤ b.question_number) answers
All-at_least m n [] h hs = tt
All-at_least m n (b ∷ bs) h hs = (omega (arith, hs.0), All-at_least m n bs h hs.1)

insert_answer-IsSorted :
    (a : InterviewAnswer) (answers : List InterviewAnswer)
    → IsSorted answers
    → IsSorted (insert_answer a answers)
unfolding insert_answer
insert_answer-IsSorted a [] s = (tt, tt)
insert_answer-IsSorted a (b ∷ bs) s = elim (Bool-cases (leb a.question_number b.question_number)) [
  | inl le ↦
      let h : a.question_number ≤ b.question_number = ground arith in
      rw (insert_answer, le) ((h, All-at_least a.question_number b.question_number bs h s.0), s)
  | inr gt ↦
      rw (insert_answer, gt)
        (
          All-insert_answer b.question_number a bs (ground arith) s.0,
          insert_answer-IsSorted a bs s.1,
        )
]

answers_to-insert_answer :
    (n : ℕ) (a : InterviewAnswer) (answers : List InterviewAnswer)
    → answers_to n (insert_answer a answers) ≡ answers_to n (a ∷ answers)
unfolding insert_answer
answers_to-insert_answer n a [] = refl
answers_to-insert_answer n a (b ∷ bs) = ground (arith, answers_to-insert_answer n a bs)

sort_answers-IsSorted : (answers : List InterviewAnswer) → IsSorted (sort_answers answers)
unfolding sort_answers
sort_answers-IsSorted [] = tt
sort_answers-IsSorted (a ∷ answers) =
    insert_answer-IsSorted a (sort_answers answers) (sort_answers-IsSorted answers)

answers_to-sort_answers :
    (n : ℕ) (answers : List InterviewAnswer)
    → answers_to n (sort_answers answers) ≡ answers_to n answers
unfolding sort_answers
answers_to-sort_answers n [] = refl
answers_to-sort_answers n (a ∷ answers) =
    answers_to-insert_answer n a (sort_answers answers)
    ∙ ap (λ rest. if a.question_number == n then a ∷ rest else rest)
        (answers_to-sort_answers n answers)

-- The interview answers come sorted by their question, none is lost or added, and the answers to one
-- question keep their order.
pub sort_answers_lem :
    (answers : List InterviewAnswer)
    → IsSorted (sort_answers answers)
      × ((n : ℕ) → answers_to n (sort_answers answers) ≡ answers_to n answers)
sort_answers_lem answers = (sort_answers-IsSorted answers, λ n. answers_to-sort_answers n answers)
