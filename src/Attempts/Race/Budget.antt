-- ===== src/Attempts/Race/Budget.antt =====
-- Counting calls along a schedule: a number of calls and a number of rows that no step raises.
use testify.Common.{Bool, List, ℕ, count, ◌≤◌, ◌∷◌, ◌+◌, [], arith, suc, zero, if◌then◌else◌}
use testify.Attempts.Race.{Actor, step, step_at, System, run}
use testify.Models.{Database}

abbrev pub one : (Actor → Bool) → Actor → ℕ
one p a = if p a then 1 else 0

-- A count of calls and a number of rows that no step raises together.
pub record IsBudget (attempt_id : ℕ) (p : Actor → Bool) (rows : Database → ℕ) : Type 0 where
  pub spends :
      (now : ℕ) (a : Actor) (db : Database)
      → rows db ≤ 1
      → let (a', db') = step attempt_id now a db in
        (one p a' + rows db' ≤ one p a + rows db) × (rows db' ≤ rows db)

module _ (attempt_id : ℕ) (p : Actor → Bool) (rows : Database → ℕ)
    (budget : IsBudget attempt_id p rows) where
  step_at_spends :
      (now i : ℕ) (actors : List Actor) (db : Database)
      → rows db ≤ 1
      → let (actors', db') = step_at attempt_id now i actors db in
        (count p actors' + rows db' ≤ count p actors + rows db) × (rows db' ≤ rows db)
  unfolding step_at count
  step_at_spends now i [] db h = (omega arith, omega arith)
  step_at_spends now zero (a ∷ actors) db h = omega (arith, budget.spends now a db h)
  step_at_spends now (suc i) (a ∷ actors) db h = omega (arith, step_at_spends now i actors db h)

  pub run_spends :
      (schedule : List (ℕ × ℕ)) (s : System)
      → rows s.db ≤ 1
      → let s' = run attempt_id schedule s in
        count p s'.actors + rows s'.db ≤ count p s.actors + rows s.db
  unfolding run
  run_spends [] s h = omega arith
  run_spends ((i, now) ∷ schedule) s h =
      let (actors', db') = step_at attempt_id now i s.actors s.db in
      let first = step_at_spends now i s.actors s.db h in
      omega (
        arith,
        first,
        run_spends schedule (record { db = db'; actors = actors' }) (omega (arith, first)),
      )
