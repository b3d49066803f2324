-- ===== src/Attempts/Finish.antt =====
-- `finish` on every branch, and that it may be called again.
use testify.Common.{
  ℕ, ◌≡◌, some, none, true, false, ◌≤◌, find-update, arith, find-some-count_and, refl, find-some,
  Option-cases, inl, inr, Bool-cases,
}
use testify.Effects.{ok, err, system_error, outcome, after}
use testify.Models.{AttemptStatus, Attempt, Database, is_in_progress}
use testify.Scoring.{SectionScores, section_scores_from_attempt, compute}
use testify.Jobs.Scheduler.{Scheduler}
use testify.Jobs.Registry.{cancel_attempt_jobs}
use testify.Attempts.Repository.{
  has_id, is_open_row, get_by_id, list_by_attempt, list_by_test, finished_row, mark_finished,
}
use testify.Attempts.Service.{
  user_request, time_out, World, FinishReason, AttemptResult, target_status, not_owned, finish,
}

-- An open row that is found is matched by the guarded update.
mark_finished_matches :
    (attempt_id : ℕ) (reason : FinishReason) (scores : SectionScores) (now : ℕ) (db : Database)
    (a : Attempt)
    → get_by_id attempt_id db ≡ some a
    → is_in_progress a.status ≡ true
    → 1 ≤ (mark_finished attempt_id (target_status reason) scores now db).0
unfolding get_by_id mark_finished
mark_finished_matches attempt_id reason scores now db a found live =
    find-some-count_and (has_id attempt_id) (λ x. is_in_progress x.status) db.attempts a found live

-- The row that `finish` reads again holds the new status, time and scores.
pub get_by_id-mark_finished :
    (attempt_id : ℕ) (reason : FinishReason) (scores : SectionScores) (now : ℕ) (db : Database)
    (a : Attempt)
    → get_by_id attempt_id db ≡ some a
    → is_in_progress a.status ≡ true
    → get_by_id attempt_id (mark_finished attempt_id (target_status reason) scores now db).1
      ≡ some (finished_row (target_status reason) scores now a)
unfolding get_by_id mark_finished
get_by_id-mark_finished attempt_id reason scores now db a found live =
    rw
      (
        find-update (is_open_row attempt_id) (has_id attempt_id)
            (finished_row (target_status reason) scores now) db.attempts (λ x. refl),
        found,
      )
      (ground (arith, find-some (has_id attempt_id) db.attempts a found))

pub target_status_done : (reason : FinishReason) → is_in_progress (target_status reason) ≡ false
target_status_done user_request = refl
target_status_done time_out = refl

-- What `finish` reads back is what it computed.
section_scores-finished_row :
    (status : AttemptStatus) (scores : SectionScores) (now : ℕ) (a : Attempt)
    → section_scores_from_attempt (finished_row status scores now a) ≡ scores
unfolding section_scores_from_attempt
section_scores-finished_row status scores now a = refl

module _ (sched : Scheduler) where
  open sched use {Jobs}

  -- `finish` of an attempt that does not exist raises, and changes nothing.
  pub finish_missing :
      (attempt_id : ℕ) (reason : FinishReason) (now : ℕ) (w : World Jobs)
      → get_by_id attempt_id w.db ≡ none
      → finish sched attempt_id reason now w ≡ (err system_error, w)
  unfolding finish
  finish_missing attempt_id reason now w missing = rw missing

  -- `finish` of an attempt that is finished returns the stored scores, and changes nothing.
  pub finish_finished :
      (attempt_id : ℕ) (reason : FinishReason) (now : ℕ) (w : World Jobs) (a : Attempt)
      → get_by_id attempt_id w.db ≡ some a
      → is_in_progress a.status ≡ false
      → finish sched attempt_id reason now w ≡ (ok (not_owned a), w)
  unfolding finish
  finish_finished attempt_id reason now w a found done = ground arith

  -- `finish` of an open attempt stores the computed scores.
  pub finish_open :
      (attempt_id : ℕ) (reason : FinishReason) (now : ℕ) (w : World Jobs) (a : Attempt)
      → get_by_id attempt_id w.db ≡ some a
      → is_in_progress a.status ≡ true
      → let scores = compute (list_by_attempt attempt_id w.db) (list_by_test a.test_id w.db) in
        finish sched attempt_id reason now w ≡ (
          ok (record {
            attempt = finished_row (target_status reason) scores now a;
            scores = scores;
            owned_finalization = true;
          }),
          record {
            db = (mark_finished attempt_id (target_status reason) scores now w.db).1;
            jobs = cancel_attempt_jobs sched attempt_id w.jobs;
          },
        )
  unfolding finish
  finish_open attempt_id reason now w a found live =
      let scores = compute (list_by_attempt attempt_id w.db) (list_by_test a.test_id w.db) in
      ground (
        arith,
        mark_finished_matches attempt_id reason scores now w.db a found live,
        get_by_id-mark_finished attempt_id reason scores now w.db a found live,
      )

  -- A call that returns may be repeated, with any reason and at any time: the second call returns
  -- the row and the scores of the first, does not own the finalization, and changes neither the
  -- database nor the job store.
  pub finish_twice :
      (attempt_id : ℕ) (reason again : FinishReason) (now later : ℕ) (w : World Jobs)
      (r : AttemptResult)
      → outcome (finish sched attempt_id reason now) w ≡ ok r
      → let w' = after (finish sched attempt_id reason now) w in
        finish sched attempt_id again later w' ≡ (ok (record r { owned_finalization = false }), w')
  finish_twice attempt_id reason again now later w r returned =
      elim (Option-cases (get_by_id attempt_id w.db)) [
        | inl missing ↦ cc (returned, finish_missing attempt_id reason now w missing)
        | inr (a, found) ↦ elim (Bool-cases (is_in_progress a.status)) [
          | inl live ↦
              let scores =
                compute (list_by_attempt attempt_id w.db) (list_by_test a.test_id w.db) in
              let first = finish_open attempt_id reason now w a found live in
              let row = finished_row (target_status reason) scores now a in
              let w' : World Jobs = record {
                db = (mark_finished attempt_id (target_status reason) scores now w.db).1;
                jobs = cancel_attempt_jobs sched attempt_id w.jobs;
              } in
              let second =
                finish_finished attempt_id again later w' row
                  (get_by_id-mark_finished attempt_id reason scores now w.db a found live)
                  (target_status_done reason) in
              ground (
                arith,
                first,
                second,
                section_scores-finished_row (target_status reason) scores now a,
              )
          | inr done ↦ ground (
            arith,
            finish_finished attempt_id reason now w a found done,
            finish_finished attempt_id again later w a found done,
          )
        ]
      ]
