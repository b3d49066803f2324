-- ===== src/Scoring.antt =====
-- app/services/scoring_service.py
pub mod Count
pub mod Exact
pub mod Bounds
use testify.Common.{
  ℕ, suc, ◌+◌, Bool, true, false, Option, none, some, List, [], ◌∷◌, text_eq, find, ◌==◌,
  if◌then◌else◌,
}
use testify.Models.{Question, Answer, Attempt, Section, rus_tili, pedagogik, kasbiy, other}

-- `SectionScores`
pub record SectionScores : Type 0 where
  pub rus_tili : ℕ
  pub pedagogik : ℕ
  pub kasbiy : ℕ
  pub total : ℕ

-- `int(column or 0)`
abbrev pub or_zero : Option ℕ → ℕ
or_zero none = 0
or_zero (some n) = n

unfoldable pub section_scores_from_attempt : Attempt → SectionScores
section_scores_from_attempt attempt = record {
  rus_tili = or_zero attempt.score_rus_tili_correct;
  pedagogik = or_zero attempt.score_pedagogik_correct;
  kasbiy = or_zero attempt.score_kasbiy_correct;
  total = or_zero attempt.score_total_correct;
}

-- The counters `rus`, `ped` and `kas` of the loop in `compute`.
pub record Tally : Type 0 where
  pub rus : ℕ
  pub ped : ℕ
  pub kas : ℕ

-- The `if`/`elif` chain on the section.
unfoldable pub add_correct : Section → Tally → Tally
add_correct rus_tili t = record t { rus = t.rus + 1 }
add_correct pedagogik t = record t { ped = t.ped + 1 }
add_correct kasbiy t = record t { kas = t.kas + 1 }
add_correct (other _) t = t

-- `{q.id: q for q in questions}.get(question_id)`: a later question of the same id wins.
unfoldable pub question_by_id : List Question → ℕ → Option Question
question_by_id [] question_id = none
question_by_id (q ∷ questions) question_id = elim (question_by_id questions question_id) [
  | some later ↦ some later
  | none ↦ if q.id == question_id then some q else none
]

-- The body of the loop, on the question that was looked up.
unfoldable pub tally_answer : Option Question → Answer → Tally → Tally
unfolding add_correct
tally_answer none answer t = t
tally_answer (some question) answer t =
    if text_eq answer.selected_option question.correct_option
    then add_correct question.section t
    else t

unfoldable pub tally_from : List Answer → List Question → Tally → Tally
unfolding tally_answer
tally_from [] questions t = t
tally_from (answer ∷ answers) questions t =
    tally_from answers questions
      (tally_answer (question_by_id questions answer.question_id) answer t)

-- `ScoringService.compute`
unfoldable pub compute : List Answer → List Question → SectionScores
unfolding tally_from
compute answers questions =
    let t = tally_from answers questions (record { rus = 0; ped = 0; kas = 0 }) in
    record { rus_tili = t.rus; pedagogik = t.ped; kasbiy = t.kas; total = t.rus + t.ped + t.kas }
