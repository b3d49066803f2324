-- ===== src/Scoring/Bounds.antt =====
-- What `compute` returns, and the ranges of `ck_attempts__score_ranges`.
use testify.Common.{ℕ, ◌+◌, ◌≤◌, ◌≡◌, arith, List, count, Distinct, count-and_le, if◌then◌else◌}
use testify.Models.{Question, Answer, Section, rus_tili, pedagogik, kasbiy, section_eq}
use testify.Scoring.{SectionScores, Tally, add_correct, compute}
use testify.Scoring.Count.{counter-tally_from}
use testify.Scoring.Exact.{right_in_section, is_answered_right, hits-eq-right}

-- `ck_attempts__score_ranges`
pub record InScoreRanges (scores : SectionScores) : Type 0 where
  pub rus_tili_range : scores.rus_tili ≤ 35
  pub pedagogik_range : scores.pedagogik ≤ 10
  pub kasbiy_range : scores.kasbiy ≤ 5
  pub total_range : scores.total ≤ 50

-- The questions of a section.
abbrev pub in_section : Section → List Question → ℕ
in_section s = count (λ q. section_eq s q.section)

adds_rus :
    (sec : Section) (t : Tally)
    → (add_correct sec t).rus ≡ t.rus + (if section_eq rus_tili sec then 1 else 0)
unfolding add_correct
adds_rus sec t = ground arith

adds_ped :
    (sec : Section) (t : Tally)
    → (add_correct sec t).ped ≡ t.ped + (if section_eq pedagogik sec then 1 else 0)
unfolding add_correct
adds_ped sec t = ground arith

adds_kas :
    (sec : Section) (t : Tally)
    → (add_correct sec t).kas ≡ t.kas + (if section_eq kasbiy sec then 1 else 0)
unfolding add_correct
adds_kas sec t = ground arith

abbrev start : Tally
start = record { rus = 0; ped = 0; kas = 0 }

-- Where an attempt has at most one answer for a question and no two questions share an id, the
-- score of each section is the number of its questions that were answered right, and the total is
-- their sum.
pub compute_exact :
    (answers : List Answer) (questions : List Question)
    → Distinct (λ (a : Answer). a.question_id) answers
    → Distinct (λ (q : Question). q.id) questions
    → let right = λ (s : Section). right_in_section s answers questions in
      compute answers questions ≡ record {
        rus_tili = right rus_tili;
        pedagogik = right pedagogik;
        kasbiy = right kasbiy;
        total = right rus_tili + right pedagogik + right kasbiy;
      }
unfolding compute
compute_exact answers questions da dq = ground (
  arith,
  counter-tally_from rus_tili (λ t. t.rus) adds_rus answers questions start,
  counter-tally_from pedagogik (λ t. t.ped) adds_ped answers questions start,
  counter-tally_from kasbiy (λ t. t.kas) adds_kas answers questions start,
  hits-eq-right rus_tili answers questions da dq,
  hits-eq-right pedagogik answers questions da dq,
  hits-eq-right kasbiy answers questions da dq,
)

right-le-section :
    (s : Section) (answers : List Answer) (questions : List Question)
    → right_in_section s answers questions ≤ in_section s questions
unfolding right_in_section
right-le-section s answers questions =
    count-and_le (λ q. section_eq s q.section) (is_answered_right answers) questions

-- On a test with at most 35, 10 and 5 questions in the three sections the scores pass the CHECK
-- constraint on the attempt's score columns.
pub compute-InScoreRanges :
    (answers : List Answer) (questions : List Question)
    → Distinct (λ (a : Answer). a.question_id) answers
    → Distinct (λ (q : Question). q.id) questions
    → in_section rus_tili questions ≤ 35
    → in_section pedagogik questions ≤ 10
    → in_section kasbiy questions ≤ 5
    → InScoreRanges (compute answers questions)
compute-InScoreRanges answers questions da dq r p k = rw (compute_exact answers questions da dq) (
    omega (
      arith,
      right-le-section rus_tili answers questions,
      right-le-section pedagogik answers questions,
      right-le-section kasbiy answers questions,
    ))
