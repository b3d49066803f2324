-- ===== src/Scoring/Count.antt =====
-- The loop of `compute` as a sum over the answers, for one of the three counters.
use testify.Common.{
  ℕ, ◌+◌, ◌≡◌, ◌&&◌, Option, none, some, List, [], ◌∷◌, arith, text_eq, if◌then◌else◌,
}
use testify.Models.{Question, Answer, Section, section_eq}
use testify.Scoring.{Tally, add_correct, question_by_id, tally_answer, tally_from}

-- 1 where the answer is right and its question is in section `s`.
abbrev pub hit : Section → Option Question → Answer → ℕ
hit s none answer = 0
hit s (some q) answer =
    if section_eq s q.section && text_eq answer.selected_option q.correct_option then 1 else 0

abbrev pub hits : Section → List Answer → List Question → ℕ
hits s [] questions = 0
hits s (a ∷ answers) questions =
    hit s (question_by_id questions a.question_id) a + hits s answers questions

module _ (s : Section) (counter : Tally → ℕ)
    (adds : (sec : Section) (t : Tally)
      → counter (add_correct sec t) ≡ counter t + (if section_eq s sec then 1 else 0)) where
  counter-tally_answer :
      (o : Option Question) (a : Answer) (t : Tally)
      → counter (tally_answer o a t) ≡ counter t + hit s o a
  unfolding tally_answer
  counter-tally_answer none a t = omega arith
  counter-tally_answer (some q) a t = ground (arith, adds q.section t)

  -- After the loop the counter has grown by the hits of its section.
  pub counter-tally_from :
      (answers : List Answer) (questions : List Question) (t : Tally)
      → counter (tally_from answers questions t) ≡ counter t + hits s answers questions
  unfolding tally_from
  counter-tally_from [] questions t = omega arith
  counter-tally_from (a ∷ answers) questions t = omega (
    arith,
    counter-tally_from answers questions
        (tally_answer (question_by_id questions a.question_id) a t),
    counter-tally_answer (question_by_id questions a.question_id) a t,
  )
