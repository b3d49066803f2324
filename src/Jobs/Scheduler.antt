-- ===== src/Jobs/Scheduler.antt =====
-- What app/jobs/registry.py relies on of APScheduler's job store.
use testify.Common.{ℕ, ◌≡◌, Bool, true, false, ◌&&◌, Option, none, some, ◌==◌, if◌then◌else◌, arith}

-- The suffixes of `_ATTEMPT_SLOTS`.
pub data Slot : Type 0 where
  warn_10min warn_5min warn_1min expire : Slot

abbrev pub slot_eq : Slot → Slot → Bool
slot_eq warn_10min warn_10min = true
slot_eq warn_5min warn_5min = true
slot_eq warn_1min warn_1min = true
slot_eq expire expire = true
slot_eq _ _ = false

-- A job id `attempt_<suffix>:<attempt_id>`, by the two parts that the text is made of. No suffix
-- has a colon, so the text determines them.
pub record JobId : Type 0 where
  pub suffix : Slot
  pub attempt_id : ℕ

abbrev pub job_eq : JobId → JobId → Bool
job_eq i j = slot_eq i.suffix j.suffix && i.attempt_id == j.attempt_id

pub job_eq-eq : (i j : JobId) → job_eq i j ≡ true → i ≡ j
job_eq-eq i j h = ground arith

-- The documented behaviour of `add_job(…, DateTrigger, replace_existing=True)` and `remove_job`,
-- which raises `JobLookupError` (`none`) where there is no such job.
pub record Scheduler : Type 1 where
  pub Jobs : Type 0
  pub run_date : Jobs → JobId → Option ℕ
  pub add_job : Jobs → JobId → ℕ → Jobs
  pub remove_job : Jobs → JobId → Option Jobs
  pub run_date-add_job :
      (jobs : Jobs) (i j : JobId) (t : ℕ)
      → run_date (add_job jobs i t) j ≡ (if job_eq i j then some t else run_date jobs j)
  pub run_date-remove_job :
      (jobs : Jobs) (i j : JobId) (left : Jobs)
      → remove_job jobs i ≡ some left
      → run_date left j ≡ (if job_eq i j then none else run_date jobs j)
  pub remove_job_missing :
      (jobs : Jobs) (i : JobId) → remove_job jobs i ≡ none → run_date jobs i ≡ none
