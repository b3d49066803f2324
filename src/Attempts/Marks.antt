-- ===== src/Attempts/Marks.antt =====
-- `get_question_marks` of app/services/attempt_service.py.
use testify.Common.{ℕ, Bool, Option, none, some, List, [], ◌∷◌, map, ◌==◌, if◌then◌else◌}
use mathlib.Core.Option
use testify.Models.{Question, Answer, Database}
use testify.Attempts.Repository.{get_by_id, list_by_attempt, list_by_test}

-- The answer of a question: `{a.question_id: a for a in answers}` keeps the last one.
unfoldable pub answer_to : ℕ → List Answer → Option Answer
answer_to question_id [] = none
answer_to question_id (a ∷ answers) = elim (answer_to question_id answers) [
  | some later ↦ some later
  | none ↦ if a.question_id == question_id then some a else none
]

-- `get_question_marks`: the positions in order, each with its mark.
unfoldable pub get_question_marks : ℕ → Database → List (ℕ × Option Bool)
unfolding answer_to
get_question_marks attempt_id db = elim (get_by_id attempt_id db) [
  | none ↦ []
  | some a ↦
      let answers = list_by_attempt attempt_id db in
      map
        (λ (q : Question).
          (q.position, Option.map (λ (x : Answer). x.is_correct) (answer_to q.id answers)))
        (list_by_test a.test_id db)
]
