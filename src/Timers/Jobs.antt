-- ===== src/Timers/Jobs.antt =====
-- `_send_warning`, `attempt_expire_job`, `expired_attempt_sweep_job` and `reconcile_attempts`. Each
-- job opens its own session, commits or rolls it back, and sends after the commit; a rollback does
-- not reach the job store.
use testify.Common.{ℕ, Bool, true, false, Option, none, some, List, [], ◌∷◌, leb, if◌then◌else◌}
use testify.Effects.{ok, err}
use testify.Models.{User, Attempt, is_banned}
use testify.Users.Repository as Users
use testify.Scoring.{SectionScores}
use testify.Jobs.Scheduler.{Scheduler}
use testify.Jobs.Registry.{schedule_attempt_jobs}
use testify.Attempts.Repository.{WarningSlot, get_by_id, list_in_progress, list_expired_in_progress}
use testify.Attempts.Marks.{get_question_marks}
use testify.Attempts.Service.{World, time_out, AttemptResult, claim_warning_slot, finish}

-- A message to a user.
pub data Notice : Type 0 where
  time_warning : WarningSlot → Notice
  auto_submitted : Notice
  result_screen : Attempt → SectionScores → List (ℕ × Option Bool) → Notice

-- What a job leaves: the committed database with the job store, the messages that it sent, each with
-- the Telegram id that it went to, and whether it raised.
pub record Outcome (Jobs : Type 0) : Type 0 where
  pub world : World Jobs
  pub sent : List (ℕ × Notice)
  pub raised : Bool

-- `session.rollback()` and a return, or an exception that leaves the session: the database of `w`, and
-- the job store of `w'`.
abbrev pub rolled_back : {Jobs : Type 0} → World Jobs → World Jobs → Bool → Outcome Jobs
rolled_back w w' raised = record { world = record w' { db = w.db }; sent = []; raised = raised }

abbrev pub committed : {Jobs : Type 0} → World Jobs → List (ℕ × Notice) → Outcome Jobs
committed w' sent = record { world = w'; sent = sent; raised = false }

-- ---------- warnings ----------

-- `_send_warning` after the claim. `fails` says that a read of the settings raises.
unfoldable pub warn_claimed_user :
    {Jobs : Type 0} → Bool → WarningSlot → World Jobs → World Jobs → Option User → Outcome Jobs
warn_claimed_user fails slot w w' none = rolled_back w w' false
warn_claimed_user fails slot w w' (some user) =
    if is_banned user.status
    then committed w' []
    else if fails
    then rolled_back w w' true
    else committed w' ((user.telegram_id, time_warning slot) ∷ [])

unfoldable pub send_warning :
    {Jobs : Type 0} → Bool → ℕ → WarningSlot → ℕ → World Jobs → Outcome Jobs
unfolding warn_claimed_user
send_warning fails attempt_id slot now w =
    let (r, w') = claim_warning_slot attempt_id slot now w in
    elim r [
      | err e ↦ rolled_back w w' true
      | ok none ↦ rolled_back w w' false
      | ok (some claimed) ↦
          warn_claimed_user fails slot w w' (Users.get_by_id claimed.user_id w'.db)
    ]

-- ---------- expiry ----------

module _ (sched : Scheduler) where
  open sched use {Jobs}

  -- `attempt_expire_job` after a `finish` that owned the finalization.
  unfoldable pub expire_owned :
      Bool → ℕ → World Jobs → World Jobs → AttemptResult → Option User → Outcome Jobs
  expire_owned fails attempt_id w w' r none = rolled_back w w' false
  expire_owned fails attempt_id w w' r (some user) =
      if is_banned user.status
      then committed w' []
      else if fails
      then rolled_back w w' true
      else committed w' (
          (user.telegram_id, auto_submitted)
          ∷ (
            user.telegram_id,
            result_screen r.attempt r.scores (get_question_marks attempt_id w'.db),
          )
          ∷ [])

  -- `attempt_expire_job` on the row that was read.
  unfoldable pub expire_found : Bool → ℕ → ℕ → World Jobs → Option Attempt → Outcome Jobs
  unfolding expire_owned
  expire_found fails attempt_id now w none = rolled_back w w false
  expire_found fails attempt_id now w (some attempt) =
      let (r, w') = finish sched attempt_id time_out now w in
      elim r [
        | err e ↦ rolled_back w w' true
        | ok result ↦
            if result.owned_finalization
            then expire_owned fails attempt_id w w' result
                (Users.get_by_id result.attempt.user_id w'.db)
            else committed w' []
      ]

  unfoldable pub attempt_expire_job : Bool → ℕ → ℕ → World Jobs → Outcome Jobs
  unfolding expire_found
  attempt_expire_job fails attempt_id now w =
      expire_found fails attempt_id now w (get_by_id attempt_id w.db)

  -- ---------- sweep ----------

  -- The loop of `expired_attempt_sweep_job`: a job that raises does not end it. `fails` and `clock`
  -- give what the job of each attempt meets.
  unfoldable pub sweep_ids : (ℕ → Bool) → (ℕ → ℕ) → List ℕ → World Jobs → World Jobs
  sweep_ids fails clock [] w = w
  sweep_ids fails clock (id ∷ ids) w =
      sweep_ids fails clock ids (attempt_expire_job (fails id) id (clock id) w).world

  unfoldable pub expired_attempt_sweep_job : (ℕ → Bool) → (ℕ → ℕ) → ℕ → World Jobs → World Jobs
  expired_attempt_sweep_job fails clock now w =
      sweep_ids fails clock (list_expired_in_progress now w.db) w

  -- ---------- reconciliation ----------

  -- One round of the loop of `reconcile_attempts`: `now` is the clock of `schedule_attempt_jobs`, `now'`
  -- that of `_is_overdue`, and `now''` that of `finish`.
  unfoldable pub reconcile_one : Bool → ℕ → ℕ → ℕ → Attempt → World Jobs → World Jobs
  reconcile_one fails now now' now'' attempt w =
      let w' = record w { jobs = schedule_attempt_jobs sched now attempt w.jobs } in
      if leb attempt.expires_at now'
      then (attempt_expire_job fails attempt.id now'' w').world
      else w'

  unfoldable pub reconcile_all :
      (ℕ → Bool) → (ℕ → ℕ) → (ℕ → ℕ) → (ℕ → ℕ) → List Attempt → World Jobs → World Jobs
  reconcile_all fails clock clock' clock'' [] w = w
  reconcile_all fails clock clock' clock'' (a ∷ attempts) w =
      reconcile_all fails clock clock' clock'' attempts
        (reconcile_one (fails a.id) (clock a.id) (clock' a.id) (clock'' a.id) a w)

  unfoldable pub reconcile_attempts :
      (ℕ → Bool) → (ℕ → ℕ) → (ℕ → ℕ) → (ℕ → ℕ) → World Jobs → World Jobs
  reconcile_attempts fails clock clock' clock'' w =
      reconcile_all fails clock clock' clock'' (list_in_progress w.db) w
