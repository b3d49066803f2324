-- ===== src/Attempts/Writes.antt =====
-- Every write of the service keeps the table consistent, and a call that raises has changed nothing.
use testify.Attempts.Finish.{finish_missing, finish_open, finish_finished, target_status_done}
use testify.Scoring.{SectionScores}
use testify.Common.{
  ℕ, Text, inl, ◌≡◌, inr, ◌⊎◌, arith, none, leb, Option-cases, ◌+◌, insert, ◌&&◌, Bool-cases, true,
  ap, List, [], ◌∷◌,
}
use testify.Effects.{Result, after, outcome, Result-cases, Action, ◌>>=◌}
use testify.Models.{User, Test, is_in_progress, Database, Attempt}
use testify.Jobs.Scheduler.{Scheduler}
use testify.Jobs.Registry.{microseconds}
use testify.Attempts.Repository
use testify.Attempts.Repository.{
  WarningSlot, get_by_id, get_by_user_and_test, get_in_progress_for_user, create, new_attempt,
  upsert, mark_finished, list_in_progress_for_user,
}
use testify.Attempts.Service.{
  AttemptResult, World, FinishReason, target_status, submit_answer, set_current_position,
  claim_warning_slot, start, finish, finalize_all, finalize_in_progress_for_user, time_out,
}
use testify.Attempts.Invariant.{
  IsConsistent, mark_finished-IsConsistent, set_current_position-IsConsistent,
  mark_warning_sent-IsConsistent, insert-IsConsistent,
}

-- The calls of the service that write; the last one finishes every open attempt of a user, each at
-- its own reading of the clock.
pub data Call : Type 0 where
  start_call : ℕ → ℕ → ℕ → User → Test → Call
  submit_call : (Text → Text) → ℕ → ℕ → ℕ → Text → Call
  move_call : ℕ → ℕ → ℕ → Call
  finish_call : ℕ → FinishReason → ℕ → Call
  warn_call : ℕ → WarningSlot → ℕ → Call
  finalize_call : ℕ → (ℕ → ℕ) → Call

-- The state after a call, whether it returned or raised.
unfoldable pub perform : (sched : Scheduler) → Call → World sched.Jobs → World sched.Jobs
perform sched (start_call id now now' user test) = after (start sched id now now' user test)
perform sched (submit_call strip_upper attempt_id user_id position option) =
    after (submit_answer strip_upper attempt_id user_id position option)
perform sched (move_call attempt_id user_id position) =
    after (set_current_position attempt_id user_id position)
perform sched (finish_call attempt_id reason now) = after (finish sched attempt_id reason now)
perform sched (warn_call attempt_id slot now) = after (claim_warning_slot attempt_id slot now)
perform sched (finalize_call user_id clock) =
    after (finalize_in_progress_for_user sched user_id clock)

-- What each call leaves in the table, by the statement that it ran.
start_writes :
    (sched : Scheduler) (id now now' : ℕ) (user : User) (test : Test) (w : World sched.Jobs)
    → let left = (after (start sched id now now' user test) w).db.attempts in
      (left ≡ w.db.attempts)
      ⊎ (get_in_progress_for_user user.id w.db ≡ none)
        × (get_by_user_and_test user.id test.id w.db ≡ none)
        × (left
            ≡ insert
                (new_attempt id user.id test.id now (now + microseconds test.duration_seconds))
                w.db.attempts)
unfolding start create
start_writes sched id now now' user test w = ground arith

submit_answer_writes :
    {Jobs : Type 0} (strip_upper : Text → Text) (attempt_id user_id position : ℕ) (option : Text)
    (w : World Jobs)
    → (after (submit_answer strip_upper attempt_id user_id position option) w).db.attempts
      ≡ w.db.attempts
unfolding submit_answer upsert
submit_answer_writes strip_upper attempt_id user_id position option w = ground arith

set_current_position_writes :
    {Jobs : Type 0} (attempt_id user_id position : ℕ) (w : World Jobs)
    → let left = (after (set_current_position attempt_id user_id position) w).db in
      (left ≡ w.db)
      ⊎ (leb 1 position && leb position 50 ≡ true)
        × (left ≡ (Repository.set_current_position attempt_id position w.db).1)
unfolding set_current_position
set_current_position_writes attempt_id user_id position w = ground arith

claim_writes :
    {Jobs : Type 0} (attempt_id : ℕ) (slot : WarningSlot) (now : ℕ) (w : World Jobs)
    → (after (claim_warning_slot attempt_id slot now) w).db
      ≡ (Repository.mark_warning_sent attempt_id slot now w.db).1
unfolding claim_warning_slot
claim_writes attempt_id slot now w = ground arith

abbrev database_left : {Jobs : Type 0} → Result AttemptResult × World Jobs → Database
database_left r = r.1.db

finish_writes :
    (sched : Scheduler) (attempt_id : ℕ) (reason : FinishReason) (now : ℕ) (w : World sched.Jobs)
    → let left = (after (finish sched attempt_id reason now) w).db in
      (left ≡ w.db)
      ⊎ ((scores : SectionScores) × (left
            ≡ (mark_finished attempt_id (target_status reason) scores now w.db).1))
finish_writes sched attempt_id reason now w = elim (Option-cases (get_by_id attempt_id w.db)) [
  | inl missing ↦ inl (ap database_left (finish_missing sched attempt_id reason now w missing))
  | inr (a, found) ↦ elim (Bool-cases (is_in_progress a.status)) [
    | inl live ↦ inr (_, ap database_left (finish_open sched attempt_id reason now w a found live))
    | inr done ↦ inl (ap database_left (finish_finished sched attempt_id reason now w a found done))
  ]
]

finish-IsConsistent :
    (sched : Scheduler) (attempt_id : ℕ) (reason : FinishReason) (now : ℕ) (w : World sched.Jobs)
    → IsConsistent w.db.attempts
    → IsConsistent (after (finish sched attempt_id reason now) w).db.attempts
finish-IsConsistent sched attempt_id reason now w h =
    elim (finish_writes sched attempt_id reason now w) [
      | inl same ↦ rw same h
      | inr (scores, e) ↦ rw e (
          mark_finished-IsConsistent attempt_id (target_status reason) scores now w.db
            (target_status_done reason) h)
    ]

-- A predicate that a call and each continuation of it keep.
after_bind :
    {S A B : Type 0} (P : S → Type 0) (m : Action S A) (k : A → Action S B) (s : S)
    → P (after m s)
    → ((a : A) → P (after m s) → P (after (k a) (after m s)))
    → P (after (m >>= k) s)
after_bind P m k s left next = elim (Result-cases (outcome m s)) [
  | inl (a, e) ↦ rw (e, after) (next a left)
  | inr (x, e) ↦ rw (e, after) left
]

-- Each finish of the loop, up to the one that raises.
finalize_all-IsConsistent :
    (sched : Scheduler) (attempts : List Attempt) (clock : ℕ → ℕ) (w : World sched.Jobs)
    → IsConsistent w.db.attempts
    → IsConsistent (after (finalize_all sched attempts clock) w).db.attempts
unfolding finalize_all
finalize_all-IsConsistent sched [] clock w h = h
finalize_all-IsConsistent sched (a ∷ attempts) clock w h =
    after_bind (λ v. IsConsistent v.db.attempts) (finish sched a.id time_out (clock a.id))
      (λ r. finalize_all sched attempts clock) w
      (finish-IsConsistent sched a.id time_out (clock a.id) w h)
      (λ r left. finalize_all-IsConsistent sched attempts clock _ left)

finalize_leaves :
    (sched : Scheduler) (user_id : ℕ) (clock : ℕ → ℕ) (w : World sched.Jobs)
    → (after (finalize_in_progress_for_user sched user_id clock) w).db
      ≡ (after (finalize_all sched (list_in_progress_for_user user_id w.db) clock) w).db
unfolding finalize_in_progress_for_user
finalize_leaves sched user_id clock w = ground arith

-- No call of the service, returning or raising, breaks the constraints
-- `ck_attempts__finished_consistent`, `ck_attempts__score_total_when_finished`,
-- `ck_attempts__current_position_range` and `ux_attempts__user_test` of the `attempts` table, or
-- gives a user a second open attempt: a table where they hold and no user has two open attempts
-- stays one.
pub perform-IsConsistent :
    (sched : Scheduler) (c : Call) (w : World sched.Jobs)
    → IsConsistent w.db.attempts
    → IsConsistent (perform sched c w).db.attempts
unfolding perform
perform-IsConsistent sched (start_call id now now' user test) w h =
    elim (start_writes sched id now now' user test w) [
      | inl same ↦ rw same h
      | inr (free, untaken, e) ↦ rw e (
          insert-IsConsistent id user.id test.id now (now + microseconds test.duration_seconds) w.db
            free untaken h)
    ]
perform-IsConsistent sched (submit_call strip_upper attempt_id user_id position option) w h =
    rw (submit_answer_writes strip_upper attempt_id user_id position option w) h
perform-IsConsistent sched (move_call attempt_id user_id position) w h =
    elim (set_current_position_writes attempt_id user_id position w) [
      | inl same ↦ rw same h
      | inr (range, e) ↦ rw e (set_current_position-IsConsistent attempt_id position w.db range h)
    ]
perform-IsConsistent sched (finish_call attempt_id reason now) w h =
    finish-IsConsistent sched attempt_id reason now w h
perform-IsConsistent sched (warn_call attempt_id slot now) w h =
    rw (claim_writes attempt_id slot now w)
      (mark_warning_sent-IsConsistent attempt_id slot now w.db h)
perform-IsConsistent sched (finalize_call user_id clock) w h =
    rw (finalize_leaves sched user_id clock w)
      (finalize_all-IsConsistent sched (list_in_progress_for_user user_id w.db) clock w h)
