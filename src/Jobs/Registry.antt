-- ===== src/Jobs/Registry.antt =====
-- app/jobs/registry.py: the four timer jobs of an attempt.
pub mod Laws
use testify.Common.{
  ℕ, ◌-◌, ◌*◌, ◌≡◌, ◌≢◌, refl, Bool, true, false, Option, none, some, List, [], ◌∷◌, arith, leb,
  ◌==◌, if◌then◌else◌,
}
use testify.Models.{Attempt}
use testify.Jobs.Scheduler.{
  Scheduler, Slot, warn_10min, warn_5min, warn_1min, expire, JobId, job_eq,
}

abbrev pub microseconds : ℕ → ℕ
microseconds seconds = seconds * 1000000

-- `_ATTEMPT_SLOTS`; the suffix stands for the callable too.
abbrev pub attempt_slots : List (Slot × ℕ)
attempt_slots = (warn_10min, 600) ∷ (warn_5min, 300) ∷ (warn_1min, 60) ∷ (expire, 0) ∷ []

abbrev pub attempt_job_id : ℕ → Slot → JobId
attempt_job_id attempt_id suffix = record { suffix = suffix; attempt_id = attempt_id }

-- When the job of a slot is due. An expiry before the epoch does not occur.
abbrev pub run_at : ℕ → ℕ → ℕ
run_at expires_at seconds_before_expiry = expires_at - microseconds seconds_before_expiry

module _ (sched : Scheduler) where
  open sched use {Jobs, run_date, add_job, remove_job}

  -- One round of the loop of `schedule_attempt_jobs`.
  schedule_slot : ℕ → Attempt → Slot × ℕ → Jobs → Jobs
  schedule_slot now attempt (suffix, seconds) jobs =
      if leb (run_at attempt.expires_at seconds) now
      then jobs
      else add_job jobs (attempt_job_id attempt.id suffix) (run_at attempt.expires_at seconds)

  schedule_slots : ℕ → Attempt → List (Slot × ℕ) → Jobs → Jobs
  schedule_slots now attempt [] jobs = jobs
  schedule_slots now attempt (s ∷ slots) jobs =
      schedule_slots now attempt slots (schedule_slot now attempt s jobs)

  -- `schedule_attempt_jobs`
  unfoldable pub schedule_attempt_jobs : ℕ → Attempt → Jobs → Jobs
  unfolding schedule_slots schedule_slot
  schedule_attempt_jobs now attempt = schedule_slots now attempt attempt_slots

  -- `try: remove_job … except JobLookupError: continue`
  remove_quietly : JobId → Jobs → Jobs
  remove_quietly i jobs = elim (remove_job jobs i) [ none ↦ jobs | some left ↦ left ]

  cancel_slots : ℕ → List (Slot × ℕ) → Jobs → Jobs
  cancel_slots attempt_id [] jobs = jobs
  cancel_slots attempt_id ((suffix, _) ∷ slots) jobs =
      cancel_slots attempt_id slots (remove_quietly (attempt_job_id attempt_id suffix) jobs)

  -- `cancel_attempt_jobs`
  unfoldable pub cancel_attempt_jobs : ℕ → Jobs → Jobs
  unfolding cancel_slots remove_quietly
  cancel_attempt_jobs attempt_id = cancel_slots attempt_id attempt_slots
