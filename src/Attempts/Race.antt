-- ===== src/Attempts/Race.antt =====
-- Concurrent requests on one attempt: the taps, timer jobs and finishing calls of
-- app/services/attempt_service.py, one SQL statement at a time and in any order. A read sees the
-- rows of the statements before it, those of calls that have not committed included, where
-- docs/DATABASE_SPEC.md has REPEATABLE READ; a rollback of a racing call is left out. The job store is
-- left out: no statement reads it.
mod Budget
pub mod Owner
pub mod Claims
pub mod Frozen
pub mod Stale
use testify.Common.{
  List, Option, ℕ, some, Bool, Text, not, ◌∷◌, [], suc, if◌then◌else◌, text_eq, ◌==◌, none, zero,
  false, leb, true, ◌&&◌,
}
use testify.Effects.{Error, attempt_not_visible, system_error, Action}
use testify.Models.{Question, Answer, Attempt, Database, is_in_progress}
use testify.Scoring.{SectionScores, section_scores_from_attempt, compute}
use testify.Attempts.Repository
use testify.Attempts.Repository.{
  WarningSlot, get_by_id, list_by_attempt, list_by_test, get_by_test_position, mark_finished,
  upsert,
}
use testify.Attempts.Service.{FinishReason, target_status, owned_by}

-- A call, by what it has done so far.
pub data Actor : Type 0 where
  -- `finish`: at its start, after reading the open row, its answers and its questions, and after the
  -- guarded update
  finish_begin : FinishReason → Actor
  finish_read : FinishReason → Attempt → Actor
  finish_answers : FinishReason → Attempt → List Answer → Actor
  finish_scored : FinishReason → SectionScores → Actor
  finish_wrote : ℕ → SectionScores → Actor
  finish_done : Bool → SectionScores → Actor
  -- `submit_answer` of a user, with the stripped and upper-cased choice
  tap_begin : ℕ → ℕ → Text → Actor
  tap_read : ℕ → Text → Attempt → Actor
  tap_checked : Answer → Actor
  -- `set_current_position`
  move_begin : ℕ → ℕ → Actor
  move_checked : ℕ → Actor
  -- `claim_warning_slot`
  warn_begin : WarningSlot → Actor
  warn_claimed : WarningSlot → Bool → Actor
  -- returned without a result, or raised
  returned : Actor
  raised : Error → Actor

abbrev pub read_row : FinishReason → Option Attempt → Actor
read_row reason none = raised system_error
read_row reason (some a) =
    if is_in_progress a.status
    then finish_read reason a
    else finish_done false (section_scores_from_attempt a)

abbrev pub reread_row : ℕ → SectionScores → Option Attempt → Actor
reread_row rowcount scores none = raised Error.assertion_error
reread_row rowcount scores (some a) =
    if rowcount == 0
    then finish_done false (section_scores_from_attempt a)
    else finish_done true scores

abbrev pub tap_row : ℕ → Text → Option Attempt → Actor
tap_row position option none = raised attempt_not_visible
tap_row position option (some a) =
    if is_in_progress a.status then tap_read position option a else returned

abbrev pub tap_question : ℕ → Text → Option Question → Actor
tap_question attempt_id option none = raised system_error
tap_question attempt_id option (some q) = tap_checked (record {
  attempt_id = attempt_id;
  question_id = q.id;
  selected_option = option;
  is_correct = text_eq option q.correct_option;
})

abbrev pub move_row : ℕ → Option Attempt → Actor
move_row position none = raised attempt_not_visible
move_row position (some a) =
    if leb 1 position && leb position 50 then move_checked position else raised system_error

-- The next statement of a call on the attempt, at clock `now`.
unfoldable pub step : ℕ → ℕ → Actor → Database → Actor × Database
step attempt_id now (finish_begin reason) db = (read_row reason (get_by_id attempt_id db), db)
step attempt_id now (finish_read reason a) db =
    (finish_answers reason a (list_by_attempt attempt_id db), db)
step attempt_id now (finish_answers reason a answers) db =
    (finish_scored reason (compute answers (list_by_test a.test_id db)), db)
step attempt_id now (finish_scored reason scores) db =
    let (rowcount, db') = mark_finished attempt_id (target_status reason) scores now db in
    (finish_wrote rowcount scores, db')
step attempt_id now (finish_wrote rowcount scores) db =
    (reread_row rowcount scores (get_by_id attempt_id db), db)
step attempt_id now (tap_begin user_id position option) db =
    (tap_row position option (owned_by user_id (get_by_id attempt_id db)), db)
step attempt_id now (tap_read position option a) db =
    (tap_question attempt_id option (get_by_test_position a.test_id position db), db)
step attempt_id now (tap_checked answer) db =
    (returned, upsert (record answer { attempt_id = attempt_id }) db)
step attempt_id now (move_begin user_id position) db =
    (move_row position (owned_by user_id (get_by_id attempt_id db)), db)
step attempt_id now (move_checked position) db =
    (returned, (Repository.set_current_position attempt_id position db).1)
step attempt_id now (warn_begin slot) db =
    let (rowcount, db') = Repository.mark_warning_sent attempt_id slot now db in
    (warn_claimed slot (not (rowcount == 0)), db')
step attempt_id now actor db = (actor, db)

pub record System : Type 0 where
  pub db : Database
  pub actors : List Actor

-- The call at an index takes its next step; an index past the end names no call.
unfoldable pub step_at : ℕ → ℕ → ℕ → List Actor → Database → List Actor × Database
unfolding step
step_at attempt_id now i [] db = ([], db)
step_at attempt_id now zero (a ∷ actors) db =
    let (a', db') = step attempt_id now a db in (a' ∷ actors, db')
step_at attempt_id now (suc i) (a ∷ actors) db =
    let (rest, db') = step_at attempt_id now i actors db in (a ∷ rest, db')

-- A schedule names the call that runs next, and the clock at that moment.
unfoldable pub run : ℕ → List (ℕ × ℕ) → System → System
unfolding step_at
run attempt_id [] s = s
run attempt_id ((i, now) ∷ schedule) s =
    let (actors', db') = step_at attempt_id now i s.actors s.db in
    run attempt_id schedule (record { db = db'; actors = actors' })
