-- ===== src/Timers/Round.antt =====
-- One round of the start-up reconciliation.
use testify.Common.{
  ℕ, Bool, true, false, some, ◌≡◌, ◌⊎◌, inl, inr, refl, arith, Bool-cases, Option-cases, ◌==◌, ◌≤◌,
  leb, ==_iff, sym, subst,
}
use testify.Models.{User, Attempt, is_in_progress, expired}
use testify.Users.Repository as Users
use testify.Jobs.Scheduler.{Scheduler, JobId, expire}
use testify.Jobs.Registry.{schedule_attempt_jobs, attempt_job_id}
use testify.Jobs.Registry.Laws.{run_date-schedule, run_date-cancel}
use testify.Attempts.Repository.{get_by_id, finished_row}
use testify.Attempts.Service.{World, time_out}
use testify.Attempts.Finish.{get_by_id-mark_finished}
use testify.Timers.Jobs.{attempt_expire_job, reconcile_one}
use testify.Timers.Expire.{expire_job_finished, expire_job_open, expire_job_owned, scores_of}
use testify.Timers.Sweep.{expire_job_ne, expire_job_users}

module _ (sched : Scheduler) where
  open sched use {Jobs, run_date}

  -- The job of another attempt leaves the jobs of this one.
  pub jobs-expire_job_ne :
      (attempt_id now : ℕ) (fails : Bool) (w : World Jobs) (j : JobId)
      → (j.attempt_id == attempt_id) ≡ false
      → run_date (attempt_expire_job sched fails attempt_id now w).world.jobs j ≡ run_date w.jobs j
  jobs-expire_job_ne attempt_id now fails w j differs =
      elim (Option-cases (get_by_id attempt_id w.db)) [
        | inl missing ↦ unfold attempt_expire_job in ground (arith, missing)
        | inr (b, here) ↦ elim (Bool-cases (is_in_progress b.status)) [
          | inr done ↦ rw (expire_job_finished sched attempt_id now w fails b here done) refl
          | inl live ↦
              rw
                (
                  (expire_job_open sched attempt_id now w fails b here live).1,
                  run_date-cancel sched attempt_id w.jobs j,
                )
                (rw differs refl)
        ]
      ]

  module _ (a : Attempt) where
    abbrev pub IsClosed : World Jobs → Type 0
    IsClosed w = (b : Attempt) × (get_by_id a.id w.db ≡ some b) × (is_in_progress b.status ≡ false)

    abbrev pub IsTimed : World Jobs → Type 0
    IsTimed w =
        (get_by_id a.id w.db ≡ some a)
        × (run_date w.jobs (attempt_job_id a.id expire) ≡ some a.expires_at)

    pub finished-IsSettled :
        (fails : Bool) (now now' now'' : ℕ) (x : Attempt) (w : World Jobs)
        → IsClosed w
        → IsClosed (reconcile_one sched fails now now' now'' x w)
    unfolding reconcile_one
    finished-IsSettled fails now now' now'' x w (b, found, done) =
        let w' = record w { jobs = schedule_attempt_jobs sched now x w.jobs } in
        elim (Bool-cases (leb x.expires_at now')) [
          | inr early ↦ rw early (b, found, done)
          | inl late ↦ rw late (elim (Bool-cases (x.id == a.id)) [
            | inr differs ↦ (b, expire_job_ne sched a.id x.id now'' fails w' b differs found, done)
            | inl same ↦ (
              b,
              subst
                  (λ k.
                    get_by_id a.id (attempt_expire_job sched fails k now'' w').world.db ≡ some b)
                  (sym ((==_iff x.id a.id).0 same))
                  (rw (expire_job_finished sched a.id now'' w' fails b found done) found),
              done,
            )
          ])
        ]

    pub IsSettled-reconcile_one_ne :
        (fails : Bool) (now now' now'' : ℕ) (x : Attempt) (w : World Jobs)
        → (x.id == a.id) ≡ false
        → IsTimed w
        → IsTimed (reconcile_one sched fails now now' now'' x w)
    unfolding reconcile_one
    IsSettled-reconcile_one_ne fails now now' now'' x w differs (found, due) =
        let w' = record w { jobs = schedule_attempt_jobs sched now x w.jobs } in
        let apart : (a.id == x.id) ≡ false = ground (arith, differs) in
        let due' : run_date w'.jobs (attempt_job_id a.id expire) ≡ some a.expires_at =
          rw (run_date-schedule sched now x w.jobs (attempt_job_id a.id expire)) (rw apart due) in
        elim (Bool-cases (leb x.expires_at now')) [
          | inr early ↦ rw early (found, due')
          | inl late ↦ rw late (
            expire_job_ne sched a.id x.id now'' fails w' a differs found,
            rw (jobs-expire_job_ne x.id now'' fails w' (attempt_job_id a.id expire) apart) due',
          )
        ]

    -- The round of the attempt itself.
    pub reconcile_one_self :
        (now now' now'' : ℕ) (user : User) (w : World Jobs)
        → get_by_id a.id w.db ≡ some a
        → is_in_progress a.status ≡ true
        → Users.get_by_id a.user_id w.db ≡ some user
        → now ≤ now'
        → IsClosed (reconcile_one sched false now now' now'' a w)
          ⊎ IsTimed (reconcile_one sched false now now' now'' a w)
    unfolding reconcile_one
    reconcile_one_self now now' now'' user w found live exists order =
        let w' = record w { jobs = schedule_attempt_jobs sched now a w.jobs } in
        elim (Bool-cases (leb a.expires_at now')) [
          | inl late ↦
              let scores = scores_of sched a.id now'' w' a.test_id in
              inl (
                finished_row expired scores now'' a,
                rw (late, expire_job_owned sched a.id now'' w' a user found live exists)
                    (get_by_id-mark_finished a.id time_out scores now'' w'.db a found live),
                refl,
              )
          | inr early ↦ inr (
              rw early (
                found,
                rw (run_date-schedule sched now a w.jobs (attempt_job_id a.id expire))
                    (ground arith),
              ))
        ]

    abbrev pub IsSettled : World Jobs → Type 0
    IsSettled w = IsClosed w ⊎ IsTimed w

    pub users-reconcile_one :
        (u : ℕ) (fails : Bool) (now now' now'' : ℕ) (x : Attempt) (w : World Jobs)
        → Users.get_by_id u (reconcile_one sched fails now now' now'' x w).db
          ≡ Users.get_by_id u w.db
    unfolding reconcile_one
    users-reconcile_one u fails now now' now'' x w = ground (
      arith,
      expire_job_users sched u x.id now'' fails
          (record w { jobs = schedule_attempt_jobs sched now x w.jobs }),
    )

    pub found-reconcile_one_ne :
        (fails : Bool) (now now' now'' : ℕ) (x : Attempt) (w : World Jobs)
        → (x.id == a.id) ≡ false
        → get_by_id a.id w.db ≡ some a
        → get_by_id a.id (reconcile_one sched fails now now' now'' x w).db ≡ some a
    unfolding reconcile_one
    found-reconcile_one_ne fails now now' now'' x w differs found = ground (
      arith,
      expire_job_ne sched a.id x.id now'' fails
          (record w { jobs = schedule_attempt_jobs sched now x w.jobs }) a differs found,
    )
