-- ===== src/Examples/Scores.antt =====
-- The scores of the small database.
use testify.Common.{◌≡◌, refl, arith, count, text_eq}
use testify.Scoring.{compute}
use testify.Scoring.Exact.{right_in_section}
use testify.Scoring.Bounds.{compute_exact, compute-InScoreRanges, InScoreRanges}
use testify.Examples.Data.{questions, answers}

compute_exact_example :
    compute answers questions ≡ record { rus_tili = 0; pedagogik = 1; kasbiy = 0; total = 1 }
unfolding count right_in_section text_eq
compute_exact_example =
    compute_exact answers questions (refl, (refl, tt)) (refl, (refl, (refl, tt)))

compute-InScoreRanges_example : InScoreRanges (compute answers questions)
unfolding count
compute-InScoreRanges_example =
    compute-InScoreRanges answers questions (refl, (refl, tt)) (refl, (refl, (refl, tt)))
      (omega arith) (omega arith) (omega arith)
