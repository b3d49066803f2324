-- ===== src/Attempts/Repository/Laws.antt =====
-- What the statements on `attempts` do to the rows that are open, or open and not yet warned.
use testify.Common.{ℕ, ◌≡◌, refl, count, arith, false, count-update, count-update_cleared}
use testify.Models.{Answer, Database, AttemptStatus, is_in_progress}
use testify.Scoring.{SectionScores}
use testify.Attempts.Repository.{
  is_open_row, WarningSlot, warning_slot_eq, stamp, is_unsent_row, set_current_position,
  finished_row, mark_finished, mark_warning_sent, upsert,
}

abbrev pub open_rows : ℕ → Database → ℕ
open_rows attempt_id db = count (is_open_row attempt_id) db.attempts

abbrev pub unsent_rows : ℕ → WarningSlot → Database → ℕ
unsent_rows attempt_id slot db = count (is_unsent_row attempt_id slot) db.attempts

pub attempts-upsert : (row : Answer) (db : Database) → (upsert row db).attempts ≡ db.attempts
unfolding upsert
attempts-upsert row db = ground arith

module _ (attempt_id : ℕ) (db : Database) where
  pub rowcount-mark_finished :
      (status : AttemptStatus) (scores : SectionScores) (now : ℕ)
      → (mark_finished attempt_id status scores now db).0 ≡ open_rows attempt_id db
  unfolding mark_finished
  rowcount-mark_finished status scores now = refl

  pub open_rows-mark_finished :
      (status : AttemptStatus) (scores : SectionScores) (now : ℕ)
      → is_in_progress status ≡ false
      → open_rows attempt_id (mark_finished attempt_id status scores now db).1 ≡ 0
  unfolding mark_finished
  open_rows-mark_finished status scores now done =
      count-update_cleared (is_open_row attempt_id) (is_open_row attempt_id)
        (finished_row status scores now) db.attempts (λ x e. ground arith) (λ x e. e)

  pub unsent_rows-mark_finished :
      (status : AttemptStatus) (scores : SectionScores) (now : ℕ) (slot : WarningSlot)
      → is_in_progress status ≡ false
      → unsent_rows attempt_id slot (mark_finished attempt_id status scores now db).1 ≡ 0
  unfolding mark_finished
  unsent_rows-mark_finished status scores now slot done =
      count-update_cleared (is_open_row attempt_id) (is_unsent_row attempt_id slot)
        (finished_row status scores now) db.attempts (λ x e. ground arith) (λ x e. ground arith)

  pub open_rows-set_current_position :
      (position : ℕ)
      → open_rows attempt_id (set_current_position attempt_id position db).1
        ≡ open_rows attempt_id db
  unfolding set_current_position
  open_rows-set_current_position position =
      count-update (is_open_row attempt_id) (is_open_row attempt_id) _ db.attempts (λ x e. refl)

  pub unsent_rows-set_current_position :
      (position : ℕ) (slot : WarningSlot)
      → unsent_rows attempt_id slot (set_current_position attempt_id position db).1
        ≡ unsent_rows attempt_id slot db
  unfolding set_current_position
  unsent_rows-set_current_position position slot =
      count-update (is_open_row attempt_id) (is_unsent_row attempt_id slot) _ db.attempts
        (λ x e. ground arith)

  pub open_rows-mark_warning_sent :
      (slot : WarningSlot) (now : ℕ)
      → open_rows attempt_id (mark_warning_sent attempt_id slot now db).1 ≡ open_rows attempt_id db
  unfolding mark_warning_sent
  open_rows-mark_warning_sent slot now =
      count-update (is_unsent_row attempt_id slot) (is_open_row attempt_id) (stamp slot now)
        db.attempts (λ x e. ground arith)

  pub rowcount-mark_warning_sent :
      (slot : WarningSlot) (now : ℕ)
      → (mark_warning_sent attempt_id slot now db).0 ≡ unsent_rows attempt_id slot db
  unfolding mark_warning_sent
  rowcount-mark_warning_sent slot now = refl

  pub unsent_rows-mark_warning_sent :
      (slot : WarningSlot) (now : ℕ)
      → unsent_rows attempt_id slot (mark_warning_sent attempt_id slot now db).1 ≡ 0
  unfolding mark_warning_sent
  unsent_rows-mark_warning_sent slot now =
      count-update_cleared (is_unsent_row attempt_id slot) (is_unsent_row attempt_id slot)
        (stamp slot now) db.attempts (λ x e. ground arith) (λ x e. e)

  pub unsent_rows-mark_warning_sent_ne :
      (slot other : WarningSlot) (now : ℕ)
      → warning_slot_eq slot other ≡ false
      → unsent_rows attempt_id slot (mark_warning_sent attempt_id other now db).1
        ≡ unsent_rows attempt_id slot db
  unfolding mark_warning_sent
  unsent_rows-mark_warning_sent_ne slot other now differs =
      count-update (is_unsent_row attempt_id other) (is_unsent_row attempt_id slot)
        (stamp other now) db.attempts (λ x e. ground arith)
