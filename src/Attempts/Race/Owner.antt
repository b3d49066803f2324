-- ===== src/Attempts/Race/Owner.antt =====
-- At most one call owns the finalization.
use testify.Attempts.Finish.{target_status_done}
use testify.Attempts.Race.Budget.{one, run_spends}
use testify.Common.{Bool, List, ℕ, not, count, ◌≤◌, ◌==◌, ◌+◌, false, arith, ◌≡◌, count-and_le}
use testify.Attempts.Race.{
  Actor, finish_scored, finish_wrote, finish_done, tap_checked, move_checked, warn_begin, step,
  System, run,
}
use testify.Models.{Database, is_in_progress}
use testify.Attempts.Service.{target_status}
use testify.Attempts.Repository.Laws.{
  open_rows, rowcount-mark_finished, open_rows-mark_finished, attempts-upsert,
  open_rows-set_current_position, open_rows-mark_warning_sent,
}
use testify.Attempts.Repository.{has_id}

-- A call whose guarded update matched the row.
abbrev pub is_owner : Actor → Bool
is_owner (finish_wrote rowcount scores) = not (rowcount == 0)
is_owner (finish_done owned scores) = owned
is_owner _ = false

abbrev pub owners : List Actor → ℕ
owners = count is_owner

pub owner_step :
    (attempt_id now : ℕ) (a : Actor) (db : Database)
    → open_rows attempt_id db ≤ 1
    → let (a', db') = step attempt_id now a db in
      (one is_owner a' + open_rows attempt_id db' ≤ one is_owner a + open_rows attempt_id db)
      × (open_rows attempt_id db' ≤ open_rows attempt_id db)
unfolding step
owner_step attempt_id now (finish_scored reason scores) db h = ground (
  arith,
  rowcount-mark_finished attempt_id db (target_status reason) scores now,
  open_rows-mark_finished attempt_id db (target_status reason) scores now
      (target_status_done reason),
)
owner_step attempt_id now (tap_checked answer) db h =
    rw (attempts-upsert (record answer { attempt_id = attempt_id }) db) (omega arith)
owner_step attempt_id now (move_checked position) db h =
    omega (arith, open_rows-set_current_position attempt_id db position)
owner_step attempt_id now (warn_begin slot) db h =
    omega (arith, open_rows-mark_warning_sent attempt_id db slot now)
owner_step attempt_id now a db h = ground arith

-- Where the attempt has at most one row and no call owns its finalization yet, at most one of the
-- calls that finish it comes to own it, in every order of their statements and of the taps, moves
-- and warnings between them.
pub owners_le_one :
    (attempt_id : ℕ) (schedule : List (ℕ × ℕ)) (s : System)
    → count (has_id attempt_id) s.db.attempts ≤ 1
    → owners s.actors ≡ 0
    → owners (run attempt_id schedule s).actors ≤ 1
owners_le_one attempt_id schedule s single fresh =
    let few = count-and_le (has_id attempt_id) (λ a. is_in_progress a.status) s.db.attempts in
    omega (
      arith,
      few,
      run_spends attempt_id is_owner (open_rows attempt_id)
          (record { spends = owner_step attempt_id }) schedule s (omega (arith, few)),
    )
