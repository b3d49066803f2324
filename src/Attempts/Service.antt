-- ===== src/Attempts/Service.antt =====
-- app/services/attempt_service.py. Each clock reading is an argument: `now` where the method reads
-- it, `now'` where it is read again further down. The ids of new rows come from the server.
use testify.Common.{
  Bool, ℕ, Option, Text, false, List, some, if◌then◌else◌, not, ◌∷◌, length, none, [], ◌==◌, ◌+◌,
  ◌-◌, text_eq, leb, true, ◌/◌, ◌&&◌,
}
use testify.Effects.{
  Result, ok, err, Action, pure, raise, modify, assert_some, raise_if, ◌>>=◌, ◌>>◌, not_approved,
  attempt_not_visible, attempt_already_exists, system_error,
}
use testify.Models.{
  User, Test, Question, Answer, Attempt, Database, AttemptStatus, submitted, expired,
  is_in_progress, is_approved,
}
use testify.Scoring.{SectionScores, section_scores_from_attempt, compute}
use testify.Jobs.Scheduler.{Scheduler}
use testify.Jobs.Registry.{microseconds, schedule_attempt_jobs, cancel_attempt_jobs}
use testify.Attempts.Repository.{
  WarningSlot, get_by_id, get_by_user_and_test, get_in_progress_for_user, list_in_progress_for_user,
  list_by_attempt, list_by_test, get_by_test_position, new_attempt, create, upsert,
}
use testify.Attempts.Repository

-- The database and the job store.
pub record World (Jobs : Type 0) : Type 0 where
  pub db : Database
  pub jobs : Jobs

-- `FinishReason`
pub data FinishReason : Type 0 where
  user_request time_out : FinishReason

-- `AttemptResult`
pub record AttemptResult : Type 0 where
  pub attempt : Attempt
  pub scores : SectionScores
  pub owned_finalization : Bool

-- `AttemptState`; its questions are the rows, its answers the rows of the attempt.
pub record AttemptState : Type 0 where
  pub attempt_id : ℕ
  pub user_id : ℕ
  pub test_id : ℕ
  pub status : AttemptStatus
  pub current_position : ℕ
  pub started_at : ℕ
  pub expires_at : ℕ
  pub time_remaining_seconds : ℕ
  pub questions : List Question
  pub answers : List Answer

-- A function of the database, and an update that returns a row count.
module _ {Jobs A : Type 0} where
  abbrev pub reading : (Database → A) → Action (World Jobs) A
  reading f w = (ok (f w.db), w)

  abbrev pub writing : (Database → A × Database) → Action (World Jobs) A
  writing f w = let (n, db') = f w.db in (ok n, record w { db = db' })

-- `attempt is None or attempt.user_id != user_id`, and the row otherwise.
abbrev pub owned_by : ℕ → Option Attempt → Option Attempt
owned_by user_id none = none
owned_by user_id (some a) = if a.user_id == user_id then some a else none

unfoldable pub get_attempt_for_user : ℕ → ℕ → Database → Option Attempt
get_attempt_for_user attempt_id user_id db = owned_by user_id (get_by_id attempt_id db)

abbrev pub target_status : FinishReason → AttemptStatus
target_status user_request = submitted
target_status time_out = expired

-- `get_state`: `max(0, int(…))` of the seconds left is the truncated difference.
unfoldable pub get_state : ℕ → ℕ → ℕ → Database → Result AttemptState
get_state attempt_id user_id now db = elim (get_attempt_for_user attempt_id user_id db) [
  | none ↦ err attempt_not_visible
  | some a ↦ ok (record {
    attempt_id = a.id;
    user_id = a.user_id;
    test_id = a.test_id;
    status = a.status;
    current_position = a.current_position;
    started_at = a.started_at;
    expires_at = a.expires_at;
    time_remaining_seconds = (a.expires_at - now) / 1000000;
    questions = list_by_test a.test_id db;
    answers = list_by_attempt attempt_id db;
  })
]

-- The existing row that `start` reports.
abbrev pub refuse_existing : {S : Type 0} → Option Attempt → Action S Unit
refuse_existing none = pure tt
refuse_existing (some a) = raise (attempt_already_exists (some a.id))

-- The `create` of `start`, whose `IntegrityError` becomes `AttemptAlreadyExistsError()`.
abbrev pub create_attempt : {Jobs : Type 0} → Attempt → Action (World Jobs) Attempt
create_attempt row w = elim (create row w.db) [
  | none ↦ (err (attempt_already_exists none), w)
  | some db' ↦ (ok row, record w { db = db' })
]

-- ---------- writes ----------

-- `submit_answer` on the row that was read. `option` is the stripped and upper-cased choice.
unfoldable pub submit_to : {Jobs : Type 0} → ℕ → ℕ → Text → Attempt → Action (World Jobs) Unit
submit_to attempt_id question_position option attempt w =
    if is_in_progress attempt.status
    then elim (get_by_test_position attempt.test_id question_position w.db) [
      | none ↦ (err system_error, w)
      | some question ↦ (
        ok tt,
        record w {
          db =
              upsert
                (record {
                  attempt_id = attempt_id;
                  question_id = question.id;
                  selected_option = option;
                  is_correct = text_eq option question.correct_option;
                })
                w.db;
        },
      )
    ]
    else (ok tt, w)

-- `submit_answer`; `strip_upper` is `str.strip` and `str.upper` of Python.
unfoldable pub submit_answer :
    {Jobs : Type 0} → (Text → Text) → ℕ → ℕ → ℕ → Text → Action (World Jobs) Unit
unfolding submit_to
submit_answer strip_upper attempt_id user_id question_position selected_option w =
    elim (get_attempt_for_user attempt_id user_id w.db) [
      | none ↦ (err attempt_not_visible, w)
      | some attempt ↦
          submit_to attempt_id question_position (strip_upper selected_option) attempt w
    ]

unfoldable pub set_current_position : {Jobs : Type 0} → ℕ → ℕ → ℕ → Action (World Jobs) Unit
set_current_position attempt_id user_id position w =
    elim (get_attempt_for_user attempt_id user_id w.db) [
      | none ↦ (err attempt_not_visible, w)
      | some attempt ↦
          if leb 1 position && leb position 50
          then (
            ok tt,
            record w { db = (Repository.set_current_position attempt_id position w.db).1 },
          )
          else (err system_error, w)
    ]

-- `claim_warning_slot`
unfoldable pub claim_warning_slot :
    {Jobs : Type 0} → ℕ → WarningSlot → ℕ → Action (World Jobs) (Option Attempt)
claim_warning_slot attempt_id slot now = do
  rowcount ← writing (Repository.mark_warning_sent attempt_id slot now)
  if rowcount == 0 then pure none else reading (get_by_id attempt_id)

-- The result for an attempt that this call did not finalize.
abbrev pub not_owned : Attempt → AttemptResult
not_owned attempt = record {
  attempt = attempt;
  scores = section_scores_from_attempt attempt;
  owned_finalization = false;
}

module _ (sched : Scheduler) where
  open sched use {Jobs}

  -- `start`; `id` is the id of the row that `create` inserts.
  unfoldable pub start : ℕ → ℕ → ℕ → User → Test → Action (World Jobs) Attempt
  start id now now' user test = do
    raise_if (not (is_approved user.status)) not_approved
    open_attempt ← reading (get_in_progress_for_user user.id)
    refuse_existing open_attempt
    existing ← reading (get_by_user_and_test user.id test.id)
    refuse_existing existing
    attempt ←
        create_attempt
          (new_attempt id user.id test.id now (now + microseconds test.duration_seconds))
    modify (λ w. record w { jobs = schedule_attempt_jobs sched now' attempt w.jobs })
    pure attempt

  -- The end of `finish`, after the guarded update matched `rowcount` rows.
  unfoldable pub reread : ℕ → ℕ → SectionScores → Action (World Jobs) AttemptResult
  reread attempt_id rowcount scores = do
    refreshed ← reading (get_by_id attempt_id)
    attempt ← assert_some refreshed
    pure (
        if rowcount == 0
        then not_owned attempt
        else record { attempt = attempt; scores = scores; owned_finalization = true })

  -- `finish` on a row that was read as open.
  unfoldable pub finalize : ℕ → FinishReason → ℕ → Attempt → Action (World Jobs) AttemptResult
  unfolding reread
  finalize attempt_id reason now attempt = do
    answers ← reading (list_by_attempt attempt_id)
    questions ← reading (list_by_test attempt.test_id)
    let scores = compute answers questions
    rowcount ← writing (Repository.mark_finished attempt_id (target_status reason) scores now)
    modify (λ w. record w { jobs = cancel_attempt_jobs sched attempt_id w.jobs })
    reread attempt_id rowcount scores

  -- `finish` on the row that was read.
  abbrev pub finish_found :
      ℕ → FinishReason → ℕ → Option Attempt → Action (World Jobs) AttemptResult
  finish_found attempt_id reason now none = raise system_error
  finish_found attempt_id reason now (some attempt) =
      if is_in_progress attempt.status
      then finalize attempt_id reason now attempt
      else pure (not_owned attempt)

  -- `finish`
  unfoldable pub finish : ℕ → FinishReason → ℕ → Action (World Jobs) AttemptResult
  unfolding finalize
  finish attempt_id reason now = do
    found ← reading (get_by_id attempt_id)
    finish_found attempt_id reason now found

  -- The loop of `finalize_in_progress_for_user`: a raise of `finish` ends it. Each `finish` reads the
  -- clock for itself.
  unfoldable pub finalize_all : List Attempt → (ℕ → ℕ) → Action (World Jobs) Unit
  unfolding finish
  finalize_all [] clock = pure tt
  finalize_all (a ∷ attempts) clock =
      let rest = finalize_all attempts clock in finish a.id time_out (clock a.id) >>= λ _. rest

  -- `finalize_in_progress_for_user`
  unfoldable pub finalize_in_progress_for_user : ℕ → (ℕ → ℕ) → Action (World Jobs) ℕ
  unfolding finalize_all
  finalize_in_progress_for_user user_id clock = do
    attempts ← reading (list_in_progress_for_user user_id)
    finalize_all attempts clock
    pure (length attempts)
