-- ===== src/Timers/Expire.antt =====
-- What the expiry job of an attempt writes.
use testify.Common.{ℕ, Bool, true, false, some, [], ◌≡◌, ◌⊎◌, refl, arith}
use testify.Models.{User, Attempt, Database, AttemptStatus, is_in_progress, expired}
use testify.Users.Repository as Users
use testify.Scoring.{SectionScores, compute}
use testify.Jobs.Scheduler.{Scheduler}
use testify.Jobs.Registry.{cancel_attempt_jobs}
use testify.Attempts.Repository.{get_by_id, mark_finished, list_by_attempt, list_by_test}
use testify.Attempts.Service.{World, time_out}
use testify.Attempts.Finish.{finish_open, finish_finished}
use testify.Timers.Jobs.{attempt_expire_job}

users-mark_finished :
    (attempt_id : ℕ) (status : AttemptStatus) (scores : SectionScores) (now : ℕ) (db : Database)
    → (mark_finished attempt_id status scores now db).1.users ≡ db.users
unfolding mark_finished
users-mark_finished attempt_id status scores now db = refl

pub get_user-mark_finished :
    (u attempt_id : ℕ) (status : AttemptStatus) (scores : SectionScores) (now : ℕ) (db : Database)
    → Users.get_by_id u (mark_finished attempt_id status scores now db).1 ≡ Users.get_by_id u db
unfolding Users.get_by_id
get_user-mark_finished u attempt_id status scores now db =
    rw (users-mark_finished attempt_id status scores now db)

module _ (sched : Scheduler) (attempt_id now : ℕ) (w : World sched.Jobs) where
  -- the scores that a finishing call of an attempt on this test stores
  abbrev pub scores_of : ℕ → SectionScores
  scores_of test_id = compute (list_by_attempt attempt_id w.db) (list_by_test test_id w.db)

  -- the database with the attempt expired
  abbrev pub expired_db : ℕ → Database
  expired_db test_id = (mark_finished attempt_id expired (scores_of test_id) now w.db).1

  -- The job on a finished attempt changes nothing and sends nothing.
  pub expire_job_finished :
      (fails : Bool) (a : Attempt)
      → get_by_id attempt_id w.db ≡ some a
      → is_in_progress a.status ≡ false
      → attempt_expire_job sched fails attempt_id now w
        ≡ record { world = w; sent = []; raised = false }
  unfolding attempt_expire_job
  expire_job_finished fails a found done =
      ground (arith, finish_finished sched attempt_id time_out now w a found done)

  -- The job on an open attempt expires it and cancels its jobs, or rolls the expiry back; the jobs are
  -- cancelled in both cases.
  pub expire_job_open :
      (fails : Bool) (a : Attempt)
      → get_by_id attempt_id w.db ≡ some a
      → is_in_progress a.status ≡ true
      → let left = (attempt_expire_job sched fails attempt_id now w).world in
        ((left.db ≡ expired_db a.test_id) ⊎ (left.db ≡ w.db))
        × (left.jobs ≡ cancel_attempt_jobs sched attempt_id w.jobs)
  unfolding attempt_expire_job
  expire_job_open fails a found live =
      ground (arith, finish_open sched attempt_id time_out now w a found live)

  -- Where nothing raises and the user exists, the open attempt is expired.
  pub expire_job_owned :
      (a : Attempt) (user : User)
      → get_by_id attempt_id w.db ≡ some a
      → is_in_progress a.status ≡ true
      → Users.get_by_id a.user_id w.db ≡ some user
      → (attempt_expire_job sched false attempt_id now w).world
        ≡ record { db = expired_db a.test_id; jobs = cancel_attempt_jobs sched attempt_id w.jobs }
  unfolding attempt_expire_job
  expire_job_owned a user found live exists = ground (
    arith,
    finish_open sched attempt_id time_out now w a found live,
    get_user-mark_finished a.user_id attempt_id expired (scores_of a.test_id) now w.db,
  )
