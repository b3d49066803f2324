-- ===== src/Examples/Timers.antt =====
-- The timer jobs on the small database: the attempt's time is over at 3200000100.
use testify.Common.{ℕ, Bool, false, some, ◌≡◌, ◌⊎◌, refl, arith, count, find}
use testify.Models.{Attempt, expired, is_in_progress}
use testify.Jobs.Scheduler.{expire}
use testify.Jobs.Registry.{attempt_job_id}
use testify.Users.Repository as Users
use testify.Attempts.Repository.{get_by_id}
use testify.Timers.Jobs.{expired_attempt_sweep_job, reconcile_attempts}
use testify.Timers.Sweep.{sweep-expired}
use testify.Timers.Reconcile.{reconcile-timed}
use testify.Examples.Data.{store, world, student, attempt_row}

abbrev calm : ℕ → Bool
calm id = false

abbrev after_end : ℕ → ℕ
after_end id = 3200000300

sweep-expired_example :
    (b : Attempt) × (get_by_id 10
        (expired_attempt_sweep_job store calm after_end 3200000200 world).db
      ≡ some b)
    × (b.status ≡ expired)
unfolding get_by_id Users.get_by_id find
sweep-expired_example =
    sweep-expired store calm after_end 3200000200 world 10 attempt_row student refl refl refl refl
      refl

reconcile-timed_example :
    let w' = reconcile_attempts store calm after_end after_end after_end world in
    ((b : Attempt) × (get_by_id 10 w'.db ≡ some b) × (is_in_progress b.status ≡ false))
    ⊎ (get_by_id 10 w'.db ≡ some attempt_row)
      × (store.run_date w'.jobs (attempt_job_id 10 expire) ≡ some 3200000100)
unfolding get_by_id Users.get_by_id find count
reconcile-timed_example =
    reconcile-timed store calm after_end after_end after_end world attempt_row student (omega arith)
      refl refl refl refl (omega arith)
