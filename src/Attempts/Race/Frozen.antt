-- ===== src/Attempts/Race/Frozen.antt =====
-- After the finalization no statement of a late call writes anything.
use testify.Common.{
  ℕ, ◌≡◌, List, arith, ◌∷◌, count, suc, update_unmatched, ◌∙◌, ◌≤◌, [], find_of_count_zero,
  count-and_le, refl, is_none, zero,
}
use testify.Models.{Database, is_in_progress}
use testify.Attempts.Service.{target_status}
use testify.Attempts.Race.{
  Actor, finish_scored, tap_checked, move_checked, warn_begin, step, step_at, System, run,
}
use testify.Attempts.Race.Budget.{run_spends}
use testify.Attempts.Race.Owner.{is_owner, owners, owner_step}
use testify.Attempts.Repository
use testify.Attempts.Repository.{
  has_id, is_open_row, is_unsent_row, sent_at, mark_finished, upsert, finished_row, stamp,
}
use testify.Attempts.Repository.Laws.{open_rows}

step_frozen :
    (attempt_id now : ℕ) (a : Actor) (db : Database)
    → open_rows attempt_id db ≡ 0
    → (step attempt_id now a db).1 ≡ db
unfolding step mark_finished upsert Repository.set_current_position Repository.mark_warning_sent
step_frozen attempt_id now (finish_scored reason scores) db h = ground (
  arith,
  update_unmatched (is_open_row attempt_id) (finished_row (target_status reason) scores now)
      db.attempts h,
)
step_frozen attempt_id now (tap_checked answer) db h =
    ground (arith, find_of_count_zero (is_open_row attempt_id) db.attempts h)
step_frozen attempt_id now (move_checked position) db h = ground (
  arith,
  update_unmatched (is_open_row attempt_id) (λ a. record a { current_position = position })
      db.attempts h,
)
step_frozen attempt_id now (warn_begin slot) db h =
    let unsent : count (is_unsent_row attempt_id slot) db.attempts ≡ 0 =
      omega (
        arith,
        count-and_le (is_open_row attempt_id) (λ a. is_none (sent_at slot a)) db.attempts,
      ) in
    ground
      (arith, update_unmatched (is_unsent_row attempt_id slot) (stamp slot now) db.attempts unsent)
step_frozen attempt_id now a db h = refl

step_at_frozen :
    (attempt_id now i : ℕ) (actors : List Actor) (db : Database)
    → open_rows attempt_id db ≡ 0
    → (step_at attempt_id now i actors db).1 ≡ db
unfolding step_at
step_at_frozen attempt_id now i [] db h = refl
step_at_frozen attempt_id now zero (a ∷ actors) db h = step_frozen attempt_id now a db h
step_at_frozen attempt_id now (suc i) (a ∷ actors) db h =
    step_at_frozen attempt_id now i actors db h

pub run_closed :
    (attempt_id : ℕ) (schedule : List (ℕ × ℕ)) (s : System)
    → open_rows attempt_id s.db ≡ 0
    → (run attempt_id schedule s).db ≡ s.db
unfolding run
run_closed attempt_id [] s h = refl
run_closed attempt_id ((i, now) ∷ schedule) s h =
    let same = step_at_frozen attempt_id now i s.actors s.db h in
    run_closed attempt_id schedule
      (record {
        db = (step_at attempt_id now i s.actors s.db).1;
        actors = (step_at attempt_id now i s.actors s.db).0;
      })
      (rw same h)
    ∙ same

-- Where the attempt has at most one row and no call owned its finalization at first: once a call
-- owns it, the database stays as it is. Whatever the other calls had read before, no later statement
-- of theirs changes the attempt, its scores, its answers or any other row.
pub run_frozen :
    (attempt_id : ℕ) (first rest : List (ℕ × ℕ)) (s : System)
    → count (has_id attempt_id) s.db.attempts ≤ 1
    → owners s.actors ≡ 0
    → 1 ≤ owners (run attempt_id first s).actors
    → (run attempt_id rest (run attempt_id first s)).db ≡ (run attempt_id first s).db
run_frozen attempt_id first rest s single fresh owned =
    let few = count-and_le (has_id attempt_id) (λ a. is_in_progress a.status) s.db.attempts in
    run_closed attempt_id rest (run attempt_id first s) (
      omega (
        arith,
        few,
        run_spends attempt_id is_owner (open_rows attempt_id)
            (record { spends = owner_step attempt_id }) first s (omega (arith, few)),
      ))
