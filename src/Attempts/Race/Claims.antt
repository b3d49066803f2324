-- ===== src/Attempts/Race/Claims.antt =====
-- At most one call wins each warning slot.
use testify.Attempts.Race.Budget.{one, run_spends}
use testify.Attempts.Finish.{target_status_done}
use testify.Attempts.Repository.Laws.{
  unsent_rows, unsent_rows-mark_finished, unsent_rows-set_current_position,
  unsent_rows-mark_warning_sent, unsent_rows-mark_warning_sent_ne, rowcount-mark_warning_sent,
}
use testify.Attempts.Repository.{is_open_row, WarningSlot, warning_slot_eq, sent_at}
use testify.Common.{
  Bool, List, ℕ, count, ◌≤◌, ◌&&◌, ◌+◌, false, arith, ◌≡◌, count-and_le, Bool-cases, is_none, inl,
  inr, true,
}
use testify.Attempts.Race.{
  Actor, finish_scored, tap_checked, move_checked, warn_begin, warn_claimed, step, System, run,
  WarningSlot,
}
use testify.Models.{Database, is_in_progress}
use testify.Attempts.Service.{target_status}
use testify.Attempts.Repository.Laws.{attempts-upsert}
use testify.Attempts.Repository.{has_id, warning_slot_eq}

-- The calls that won a warning slot.
abbrev pub is_claimant : WarningSlot → Actor → Bool
is_claimant slot (warn_claimed s won) = warning_slot_eq slot s && won
is_claimant slot _ = false

abbrev pub claimants : WarningSlot → List Actor → ℕ
claimants slot = count (is_claimant slot)

slot_eq_of : (s t : WarningSlot) → warning_slot_eq s t ≡ true → s ≡ t
slot_eq_of s t h = ground arith

claimant_step :
    (slot : WarningSlot) (attempt_id now : ℕ) (a : Actor) (db : Database)
    → unsent_rows attempt_id slot db ≤ 1
    → let (a', db') = step attempt_id now a db in
      (one (is_claimant slot) a' + unsent_rows attempt_id slot db'
        ≤ one (is_claimant slot) a + unsent_rows attempt_id slot db)
      × (unsent_rows attempt_id slot db' ≤ unsent_rows attempt_id slot db)
unfolding step
claimant_step slot attempt_id now (finish_scored reason scores) db h = omega (
  arith,
  unsent_rows-mark_finished attempt_id db (target_status reason) scores now slot
      (target_status_done reason),
)
claimant_step slot attempt_id now (tap_checked answer) db h =
    rw (attempts-upsert (record answer { attempt_id = attempt_id }) db) (omega arith)
claimant_step slot attempt_id now (move_checked position) db h =
    omega (arith, unsent_rows-set_current_position attempt_id db position slot)
claimant_step slot attempt_id now (warn_begin other) db h =
    elim (Bool-cases (warning_slot_eq slot other)) [
      | inl same ↦ rw (slot_eq_of slot other same) (
          ground (
            arith,
            unsent_rows-mark_warning_sent attempt_id db other now,
            rowcount-mark_warning_sent attempt_id db other now,
            slot_eq_of slot other same,
          ))
      | inr differs ↦
          ground (arith, unsent_rows-mark_warning_sent_ne attempt_id db slot other now differs)
    ]
claimant_step slot attempt_id now a db h = ground arith

-- Where the attempt has at most one row and no call has won the slot yet, at most one claim wins it,
-- in every order of the claims with each other and with the other calls on the attempt.
pub claimants_le_one :
    (slot : WarningSlot) (attempt_id : ℕ) (schedule : List (ℕ × ℕ)) (s : System)
    → count (has_id attempt_id) s.db.attempts ≤ 1
    → claimants slot s.actors ≡ 0
    → claimants slot (run attempt_id schedule s).actors ≤ 1
claimants_le_one slot attempt_id schedule s single fresh =
    let live = count-and_le (has_id attempt_id) (λ a. is_in_progress a.status) s.db.attempts in
    let few = count-and_le (is_open_row attempt_id) (λ a. is_none (sent_at slot a)) s.db.attempts in
    omega (
      arith,
      live,
      few,
      run_spends attempt_id (is_claimant slot) (unsent_rows attempt_id slot)
          (record { spends = claimant_step slot attempt_id }) schedule s (omega (arith, live, few)),
    )
