-- ===== src/Receipts/Review/Once.antt =====
-- Two decisions on one receipt.
use testify.Common.{ℕ, count, ◌≡◌, ◌⊎◌, arith}
use testify.Effects.{err, value_error, receipt_already_processed}
use testify.Models.{Database}
use testify.Users.Repository as Users
use testify.Receipts.Repository
use testify.Receipts.Repository.{is_pending_row}
use testify.Receipts.Review.{approve, reject, Decision, approval, rejection, decide}

abbrev pending_rows : ℕ → Database → ℕ
pending_rows receipt_id db = count (is_pending_row receipt_id) db.receipts

module _ (receipt_id : ℕ) (db : Database) where
  -- Where no pending row is left, a decision raises.
  pub decide_decided :
      (d : Decision)
      → pending_rows receipt_id db ≡ 0
      → (decide receipt_id d db ≡ (err receipt_already_processed, db))
        ⊎ (decide receipt_id d db ≡ (err value_error, db))
  unfolding decide approve reject Repository.mark_approved Repository.mark_rejected
  decide_decided (approval found_rows admin_id now now') none_left = ground arith
  decide_decided (rejection strip admin_id reason now) none_left = ground arith
