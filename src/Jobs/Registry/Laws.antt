-- ===== src/Jobs/Registry/Laws.antt =====
-- What scheduling and cancelling leave in the job store.
use testify.Common.{
  ℕ, ◌≡◌, if◌then◌else◌, none, leb, ◌==◌, true, some, ◌&&◌, ◌⊎◌, arith, ltb, false, inl, subst, inr,
  Option-cases, Bool-cases,
}
use testify.Models.{Attempt}
use testify.Jobs.Scheduler.{
  Scheduler, Slot, warn_10min, warn_5min, warn_1min, expire, JobId, job_eq, job_eq-eq,
}
use testify.Jobs.Registry.{
  attempt_job_id, run_at, schedule_slot, remove_quietly, schedule_attempt_jobs, cancel_attempt_jobs,
}

-- How long before the expiry the job of a slot runs, in seconds.
abbrev pub seconds_before : Slot → ℕ
seconds_before warn_10min = 600
seconds_before warn_5min = 300
seconds_before warn_1min = 60
seconds_before expire = 0

module _ (sched : Scheduler) where
  open sched use {Jobs, run_date, remove_job}

  run_date-remove_quietly :
      (i j : JobId) (jobs : Jobs)
      → run_date (remove_quietly sched i jobs) j ≡ (if job_eq i j then none else run_date jobs j)
  unfolding remove_quietly
  run_date-remove_quietly i j jobs = elim (Option-cases (remove_job jobs i)) [
    | inl missing ↦
        rw (missing, remove_quietly)
          (missing_case (Bool-cases (job_eq i j)) (sched.remove_job_missing jobs i missing))
    | inr (left, e) ↦ rw (e, remove_quietly) (sched.run_date-remove_job jobs i j left e)
  ]
    where
      missing_case :
          (job_eq i j ≡ true) ⊎ (job_eq i j ≡ false)
          → run_date jobs i ≡ none
          → run_date jobs j ≡ (if job_eq i j then none else run_date jobs j)
      missing_case (inl same) gone =
          rw same (subst (λ k. run_date jobs k ≡ none) (job_eq-eq i j same) gone)
      missing_case (inr differs) gone = rw differs

  run_date-schedule_slot :
      (now : ℕ) (attempt : Attempt) (suffix : Slot) (seconds : ℕ) (j : JobId) (jobs : Jobs)
      → run_date (schedule_slot sched now attempt (suffix, seconds) jobs) j ≡ (
          if leb (run_at attempt.expires_at seconds) now
          then run_date jobs j
          else if job_eq (attempt_job_id attempt.id suffix) j
          then some (run_at attempt.expires_at seconds)
          else run_date jobs j)
  unfolding schedule_slot
  run_date-schedule_slot now attempt suffix seconds j jobs = ground (
    arith,
    sched.run_date-add_job jobs (attempt_job_id attempt.id suffix) j
        (run_at attempt.expires_at seconds),
  )

  -- After scheduling, a slot of the attempt that is still ahead of `now` has its job, due at the
  -- slot's time, and one that has passed has the job that it had; no other job changes.
  pub run_date-schedule :
      (now : ℕ) (attempt : Attempt) (jobs : Jobs) (j : JobId)
      → run_date (schedule_attempt_jobs sched now attempt jobs) j ≡ (
          let due = run_at attempt.expires_at (seconds_before j.suffix) in
          if j.attempt_id == attempt.id && ltb now due then some due else run_date jobs j)
  unfolding schedule_attempt_jobs
  run_date-schedule now attempt jobs j = simp run_date-schedule_slot (ground arith)

  -- After cancelling, the attempt has no job, and the jobs of the others are as they were.
  pub run_date-cancel :
      (attempt_id : ℕ) (jobs : Jobs) (j : JobId)
      → run_date (cancel_attempt_jobs sched attempt_id jobs) j
        ≡ (if j.attempt_id == attempt_id then none else run_date jobs j)
  unfolding cancel_attempt_jobs
  run_date-cancel attempt_id jobs j = simp run_date-remove_quietly (ground arith)
