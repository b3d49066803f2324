-- ===== src/Attempts/Race/Stale.antt =====
-- A tap between the reads of a finishing call and its guarded update.
use testify.Common.{ℕ, Text, text_eq}
use testify.Models.{Answer, Question}

-- the answer that the tap writes
abbrev tapped : ℕ → Text → Question → Answer
tapped attempt_id option q = record {
  attempt_id = attempt_id;
  question_id = q.id;
  selected_option = option;
  is_correct = text_eq option q.correct_option;
}
