-- ===== src/Timers/Reconcile.antt =====
-- After the start-up reconciliation every open attempt has its expiry job, or is closed.
use testify.Timers.Round.{
  IsSettled, finished-IsSettled, IsSettled-reconcile_one_ne, reconcile_one_self,
  users-reconcile_one, found-reconcile_one_ne,
}
use testify.Common.{
  ℕ, Bool, true, false, some, List, [], ◌∷◌, ◌≡◌, ◌⊎◌, inl, inr, arith, Bool-cases, ◌==◌, ◌≤◌,
  count, All, sym, ◌∙◌, subst, find, select,
}
use testify.Models.{User, Attempt, is_in_progress}
use testify.Users.Repository as Users
use testify.Jobs.Scheduler.{Scheduler, expire}
use testify.Jobs.Registry.{attempt_job_id}
use testify.Attempts.Repository.{get_by_id, has_id, list_in_progress}
use testify.Attempts.Service.{World}
use testify.Timers.Jobs.{reconcile_one, reconcile_all, reconcile_attempts}

module _ (sched : Scheduler) (a : Attempt) (fails : ℕ → Bool) (clock clock' clock'' : ℕ → ℕ)
    (user : User) (live : is_in_progress a.status ≡ true) (calm : fails a.id ≡ false)
    (order : clock a.id ≤ clock' a.id) where
  open sched use {Jobs}

  abbrev round : Attempt → World Jobs → World Jobs
  round x = reconcile_one sched (fails x.id) (clock x.id) (clock' x.id) (clock'' x.id) x

  IsSettled-self :
      (w : World Jobs)
      → get_by_id a.id w.db ≡ some a
      → Users.get_by_id a.user_id w.db ≡ some user
      → IsSettled sched a (round a w)
  IsSettled-self w found exists = rw calm (
      reconcile_one_self sched a (clock a.id) (clock' a.id) (clock'' a.id) user w found live exists
        order)

  -- A round keeps what is settled; `x` is `a` where it has its id.
  IsSettled-round :
      (x : Attempt) (w : World Jobs)
      → ((x.id == a.id) ≡ true → x ≡ a)
      → Users.get_by_id a.user_id w.db ≡ some user
      → IsSettled sched a w
      → IsSettled sched a (round x w)
  IsSettled-round x w same exists (inl closed) =
      inl (
        finished-IsSettled sched a (fails x.id) (clock x.id) (clock' x.id) (clock'' x.id) x w
          closed)
  IsSettled-round x w same exists (inr timed) = elim (Bool-cases (x.id == a.id)) [
    | inr differs ↦ inr (
        IsSettled-reconcile_one_ne sched a (fails x.id) (clock x.id) (clock' x.id) (clock'' x.id) x
          w differs timed)
    | inl here ↦
        subst (λ y. IsSettled sched a (round y w)) (sym (same here))
          (IsSettled-self w timed.0 exists)
  ]

  reconcile_all-IsSettled :
      (xs : List Attempt) (w : World Jobs)
      → All (λ x. (x.id == a.id) ≡ true → x ≡ a) xs
      → Users.get_by_id a.user_id w.db ≡ some user
      → IsSettled sched a w
      → IsSettled sched a (reconcile_all sched fails clock clock' clock'' xs w)
  unfolding reconcile_all
  reconcile_all-IsSettled [] w same exists settled = settled
  reconcile_all-IsSettled (x ∷ xs) w same exists settled =
      reconcile_all-IsSettled xs (round x w) same.1
        (users-reconcile_one sched a a.user_id (fails x.id) (clock x.id) (clock' x.id)
            (clock'' x.id) x w
          ∙ exists)
        (IsSettled-round x w same.0 exists settled)

  reconcile_settles :
      (xs : List Attempt) (w : World Jobs)
      → All (λ x. (x.id == a.id) ≡ true → x ≡ a) xs
      → 1 ≤ count (has_id a.id) xs
      → get_by_id a.id w.db ≡ some a
      → Users.get_by_id a.user_id w.db ≡ some user
      → IsSettled sched a (reconcile_all sched fails clock clock' clock'' xs w)
  unfolding reconcile_all count
  reconcile_settles [] w same listed found exists = absurd (omega arith)
  reconcile_settles (x ∷ xs) w same listed found exists =
      let exists' =
        users-reconcile_one sched a a.user_id (fails x.id) (clock x.id) (clock' x.id) (clock'' x.id)
          x w
        ∙ exists in
      elim (Bool-cases (x.id == a.id)) [
        | inl here ↦ reconcile_all-IsSettled xs (round x w) same.1 exists' (
            subst (λ y. IsSettled sched a (round y w)) (sym (same.0 here))
              (IsSettled-self w found exists))
        | inr differs ↦
            reconcile_settles xs (round x w) same.1 (ground arith)
              (found-reconcile_one_ne sched a (fails x.id) (clock x.id) (clock' x.id) (clock'' x.id)
                x w differs found)
              exists'
      ]

All-none :
    (id : ℕ) (a : Attempt) (attempts : List Attempt)
    → count (has_id id) attempts ≡ 0
    → All (λ x. (x.id == id) ≡ true → x ≡ a) attempts
unfolding count
All-none id a [] h = tt
All-none id a (x ∷ attempts) h =
    ((λ e. absurd (ground (arith, e))), All-none id a attempts (ground arith))

-- The rows of a table with a unique id that have the id are the one that is found.
unique_row :
    (id : ℕ) (a : Attempt) (attempts : List Attempt)
    → find (has_id id) attempts ≡ some a
    → count (has_id id) attempts ≤ 1
    → All (λ x. (x.id == id) ≡ true → x ≡ a) attempts
unfolding find count
unique_row id a [] found single = tt
unique_row id a (x ∷ attempts) found single = elim (Bool-cases (x.id == id)) [
  | inl here ↦ ((λ e. ground (arith, here)), All-none id a attempts (ground (arith, here)))
  | inr other ↦ (
    (λ e. cc (e, other)),
    unique_row id a attempts (ground (arith, other)) (ground (arith, other)),
  )
]

All-select {ℓ κ} :
    {A : Type ℓ} (P : A → Type κ) (q : A → Bool) (xs : List A) → All P xs → All P (select q xs)
unfolding select
All-select P q [] h = tt
All-select P q (x ∷ xs) h = elim (Bool-cases (q x)) [
  | inl e ↦ rw e (h.0, All-select P q xs h.1)
  | inr e ↦ rw e (All-select P q xs h.1)
]

listed_open :
    (id : ℕ) (a : Attempt) (attempts : List Attempt)
    → find (has_id id) attempts ≡ some a
    → is_in_progress a.status ≡ true
    → 1 ≤ count (has_id id) (select (λ x. is_in_progress x.status) attempts)
unfolding find count select
listed_open id a [] found live = cc
listed_open id a (x ∷ attempts) found live = ground (arith, listed_open id a attempts)

-- After the reconciliation an attempt that was open is closed, or its row is as before and its expiry
-- job is due when the attempt expires, whatever the job store held before. The attempt's id is unique,
-- its user exists, its own expiry job does not raise, and the clock does not run backwards between
-- the two readings of its round.
pub reconcile-timed :
    (sched : Scheduler) (fails : ℕ → Bool) (clock clock' clock'' : ℕ → ℕ) (w : World sched.Jobs)
    (a : Attempt) (user : User)
    → count (has_id a.id) w.db.attempts ≤ 1
    → get_by_id a.id w.db ≡ some a
    → is_in_progress a.status ≡ true
    → Users.get_by_id a.user_id w.db ≡ some user
    → fails a.id ≡ false
    → clock a.id ≤ clock' a.id
    → let w' = reconcile_attempts sched fails clock clock' clock'' w in
      ((b : Attempt) × (get_by_id a.id w'.db ≡ some b) × (is_in_progress b.status ≡ false))
      ⊎ (get_by_id a.id w'.db ≡ some a)
        × (sched.run_date w'.jobs (attempt_job_id a.id expire) ≡ some a.expires_at)
unfolding reconcile_attempts list_in_progress
reconcile-timed sched fails clock clock' clock'' w a user single found live exists calm order =
    let row : find (has_id a.id) w.db.attempts ≡ some a = unfold get_by_id in found in
    reconcile_settles sched a fails clock clock' clock'' user live calm order
      (list_in_progress w.db) w
      (All-select (λ x. (x.id == a.id) ≡ true → x ≡ a) (λ x. is_in_progress x.status) w.db.attempts
        (unique_row a.id a w.db.attempts row single))
      (listed_open a.id a w.db.attempts row live) found exists
