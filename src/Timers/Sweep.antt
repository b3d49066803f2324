-- ===== src/Timers/Sweep.antt =====
-- The sweep finalizes what is overdue, whatever became of the timers.
use testify.Scoring.{SectionScores}
use testify.Common.{
  ℕ, Bool, true, false, some, List, [], ◌∷◌, ◌≡◌, inl, inr, refl, arith, Bool-cases, Option-cases,
  ◌==◌, ◌||◌, ◌&&◌, ltb, map, select, find, find-update, find-some, ==_iff, sym, ◌∙◌, subst, ap,
}
use testify.Models.{User, Attempt, Database, AttemptStatus, is_in_progress, expired}
use testify.Users.Repository as Users
use testify.Jobs.Scheduler.{Scheduler}
use testify.Attempts.Repository.{
  get_by_id, has_id, is_open_row, mark_finished, finished_row, list_expired_in_progress,
}
use testify.Attempts.Service.{World, time_out}
use testify.Attempts.Finish.{get_by_id-mark_finished}
use testify.Timers.Jobs.{attempt_expire_job, sweep_ids, expired_attempt_sweep_job}
use testify.Timers.Expire.{
  expire_job_finished, expire_job_open, expire_job_owned, scores_of, expired_db,
  get_user-mark_finished,
}

-- The row of another attempt stays.
pub get_by_id-mark_finished_ne :
    (other attempt_id : ℕ) (status : AttemptStatus) (scores : SectionScores) (now : ℕ)
    (db : Database) (a : Attempt)
    → (attempt_id == other) ≡ false
    → get_by_id other db ≡ some a
    → get_by_id other (mark_finished attempt_id status scores now db).1 ≡ some a
unfolding get_by_id mark_finished
get_by_id-mark_finished_ne other attempt_id status scores now db a differs found =
    rw
      (
        find-update (is_open_row attempt_id) (has_id other) (finished_row status scores now)
            db.attempts (λ x. refl),
        found,
      )
      (ground (arith, find-some (has_id other) db.attempts a found))

abbrev is_listed : ℕ → List ℕ → Bool
is_listed id [] = false
is_listed id (i ∷ ids) = i == id || is_listed id ids

module _ (sched : Scheduler) where
  open sched use {Jobs}

  -- The job of another attempt leaves the row and the users.
  pub expire_job_ne :
      (other attempt_id now : ℕ) (fails : Bool) (w : World Jobs) (a : Attempt)
      → (attempt_id == other) ≡ false
      → get_by_id other w.db ≡ some a
      → get_by_id other (attempt_expire_job sched fails attempt_id now w).world.db ≡ some a
  expire_job_ne other attempt_id now fails w a differs found =
      elim (Option-cases (get_by_id attempt_id w.db)) [
        | inl missing ↦ unfold attempt_expire_job in ground (arith, missing)
        | inr (b, here) ↦ elim (Bool-cases (is_in_progress b.status)) [
          | inr done ↦ rw (expire_job_finished sched attempt_id now w fails b here done) found
          | inl live ↦ elim (expire_job_open sched attempt_id now w fails b here live).0 [
            | inl e ↦ rw e (
                get_by_id-mark_finished_ne other attempt_id expired
                  (scores_of sched attempt_id now w b.test_id) now w.db a differs found)
            | inr e ↦ rw e found
          ]
        ]
      ]

  pub expire_job_users :
      (u attempt_id now : ℕ) (fails : Bool) (w : World Jobs)
      → Users.get_by_id u (attempt_expire_job sched fails attempt_id now w).world.db
        ≡ Users.get_by_id u w.db
  expire_job_users u attempt_id now fails w = elim (Option-cases (get_by_id attempt_id w.db)) [
    | inl missing ↦ unfold attempt_expire_job in ground (arith, missing)
    | inr (b, here) ↦ elim (Bool-cases (is_in_progress b.status)) [
      | inr done ↦ rw (expire_job_finished sched attempt_id now w fails b here done) refl
      | inl live ↦ elim (expire_job_open sched attempt_id now w fails b here live).0 [
        | inl e ↦ rw e (
            get_user-mark_finished u attempt_id expired (scores_of sched attempt_id now w b.test_id)
              now w.db)
        | inr e ↦ rw e refl
      ]
    ]
  ]

  -- A row is expired, or it is `a`, which is still open.
  abbrev IsExpired : ℕ → Database → Type 0
  IsExpired id db = (b : Attempt) × (get_by_id id db ≡ some b) × (b.status ≡ expired)

  -- A finished row stays as it is through the rest of a sweep.
  sweep_keeps :
      (fails : ℕ → Bool) (clock : ℕ → ℕ) (ids : List ℕ) (w : World Jobs) (id : ℕ) (b : Attempt)
      → get_by_id id w.db ≡ some b
      → is_in_progress b.status ≡ false
      → get_by_id id (sweep_ids sched fails clock ids w).db ≡ some b
  unfolding sweep_ids
  sweep_keeps fails clock [] w id b found done = found
  sweep_keeps fails clock (i ∷ ids) w id b found done =
      let w' = (attempt_expire_job sched (fails i) i (clock i) w).world in
      sweep_keeps fails clock ids w' id b
        (elim (Bool-cases (i == id)) [
          | inl same ↦
              subst
                (λ k.
                  get_by_id id (attempt_expire_job sched (fails k) k (clock k) w).world.db ≡ some b)
                (sym ((==_iff i id).0 same))
                (rw (expire_job_finished sched id (clock id) w (fails id) b found done) found)
          | inr differs ↦ expire_job_ne id i (clock i) (fails i) w b differs found
        ])
        done

  sweep_expires :
      (fails : ℕ → Bool) (clock : ℕ → ℕ) (ids : List ℕ) (w : World Jobs) (id : ℕ) (a : Attempt)
      (user : User)
      → get_by_id id w.db ≡ some a
      → is_in_progress a.status ≡ true
      → Users.get_by_id a.user_id w.db ≡ some user
      → fails id ≡ false
      → is_listed id ids ≡ true
      → IsExpired id (sweep_ids sched fails clock ids w).db
  unfolding sweep_ids
  sweep_expires fails clock [] w id a user found live exists calm listed = cc
  sweep_expires fails clock (i ∷ ids) w id a user found live exists calm listed =
      elim (Bool-cases (i == id)) [
        | inl same ↦
            let row =
              finished_row expired (scores_of sched id (clock id) w a.test_id) (clock id) a in
            let w1 = (attempt_expire_job sched (fails id) id (clock id) w).world in
            let e1 : w1.db ≡ expired_db sched id (clock id) w a.test_id = rw calm (
              ap (λ (v : World Jobs). v.db)
                (expire_job_owned sched id (clock id) w a user found live exists)) in
            let found1 : get_by_id id w1.db ≡ some row = rw e1 (
              get_by_id-mark_finished id time_out (scores_of sched id (clock id) w a.test_id)
                (clock id) w.db a found live) in
            subst
              (λ k.
                IsExpired id
                  (sweep_ids sched fails clock ids
                    (attempt_expire_job sched (fails k) k (clock k) w).world).db)
              (sym ((==_iff i id).0 same))
              (row, sweep_keeps fails clock ids w1 id row found1 refl, refl)
        | inr differs ↦
            let w' = (attempt_expire_job sched (fails i) i (clock i) w).world in
            sweep_expires fails clock ids w' id a user
              (expire_job_ne id i (clock i) (fails i) w a differs found) live
              (expire_job_users a.user_id i (clock i) (fails i) w ∙ exists) calm (ground arith)
      ]

is_listed-select :
    (now id : ℕ) (attempts : List Attempt) (a : Attempt)
    → find (has_id id) attempts ≡ some a
    → is_in_progress a.status && ltb a.expires_at now ≡ true
    → is_listed id
        (map (λ x. x.id) (select (λ x. is_in_progress x.status && ltb x.expires_at now) attempts))
      ≡ true
unfolding find select
is_listed-select now id [] a found late = cc
is_listed-select now id (x ∷ attempts) a found late =
    ground (arith, is_listed-select now id attempts a)

-- Every overdue attempt whose expiry job does not raise is expired after a sweep, whatever jobs the
-- job store held, and whatever the other attempts' jobs do. The user of the attempt exists.
pub sweep-expired :
    (sched : Scheduler) (fails : ℕ → Bool) (clock : ℕ → ℕ) (now : ℕ) (w : World sched.Jobs) (id : ℕ)
    (a : Attempt) (user : User)
    → get_by_id id w.db ≡ some a
    → is_in_progress a.status ≡ true
    → ltb a.expires_at now ≡ true
    → Users.get_by_id a.user_id w.db ≡ some user
    → fails id ≡ false
    → (b : Attempt) × (get_by_id id (expired_attempt_sweep_job sched fails clock now w).db ≡ some b)
      × (b.status ≡ expired)
unfolding expired_attempt_sweep_job list_expired_in_progress
sweep-expired sched fails clock now w id a user found live late exists calm =
    sweep_expires sched fails clock (list_expired_in_progress now w.db) w id a user found live
      exists calm
      (is_listed-select now id w.db.attempts a (unfold get_by_id in found) (rw (live, late) refl))
