-- ===== src/Receipts/Repository.antt =====
-- The statements of app/repositories/receipt_repository.py.
use testify.Common.{
  ℕ, insert, Bool, List, ◌==◌, Option, Text, some, count, select, true, ◌&&◌, find, none, update,
  false, is_some, not,
}
use testify.Models.{PaymentReceipt, Database, ReceiptStatus, pending, is_pending}

abbrev pub has_id : ℕ → PaymentReceipt → Bool
has_id receipt_id r = r.id == receipt_id

-- `PaymentReceipt.id == receipt_id, PaymentReceipt.status == "pending"`
abbrev pub is_pending_row : ℕ → PaymentReceipt → Bool
is_pending_row receipt_id r = r.id == receipt_id && is_pending r.status

abbrev pub is_pending_of : ℕ → PaymentReceipt → Bool
is_pending_of user_id r = r.user_id == user_id && is_pending r.status

unfoldable pub get_by_id : ℕ → Database → Option PaymentReceipt
get_by_id receipt_id db = find (has_id receipt_id) db.receipts

abbrev pub new_receipt : ℕ → ℕ → Text → Text → ℕ → ℕ → PaymentReceipt
new_receipt id user_id file_id file_unique_id phash now = record {
  id = id;
  user_id = user_id;
  telegram_file_id = file_id;
  telegram_file_unique_id = file_unique_id;
  image_phash = some phash;
  status = pending;
  rejection_reason = none;
  reviewed_by_admin_id = none;
  admin_notification_message_id = none;
  created_at = now;
  reviewed_at = none;
}

unfoldable pub create : PaymentReceipt → Database → Database
create row db = record db { receipts = insert row db.receipts }

abbrev pub approved_row : ℕ → ℕ → PaymentReceipt → PaymentReceipt
approved_row admin_id now r = record r {
  status = ReceiptStatus.approved;
  reviewed_by_admin_id = some admin_id;
  reviewed_at = some now;
}

abbrev pub rejected_row : ℕ → Text → ℕ → PaymentReceipt → PaymentReceipt
rejected_row admin_id reason now r = record r {
  status = ReceiptStatus.rejected;
  reviewed_by_admin_id = some admin_id;
  rejection_reason = some reason;
  reviewed_at = some now;
}

unfoldable pub mark_approved : ℕ → ℕ → ℕ → Database → ℕ × Database
mark_approved receipt_id admin_id now db = (
  count (is_pending_row receipt_id) db.receipts,
  record db {
    receipts = update (is_pending_row receipt_id) (approved_row admin_id now) db.receipts;
  },
)

unfoldable pub mark_rejected : ℕ → ℕ → Text → ℕ → Database → ℕ × Database
mark_rejected receipt_id admin_id reason now db = (
  count (is_pending_row receipt_id) db.receipts,
  record db {
    receipts = update (is_pending_row receipt_id) (rejected_row admin_id reason now) db.receipts;
  },
)

unfoldable pub count_pending_for_user : ℕ → Database → ℕ
count_pending_for_user user_id db = count (is_pending_of user_id) db.receipts

unfoldable pub list_pending_for_user : ℕ → Database → List PaymentReceipt
list_pending_for_user user_id db = select (is_pending_of user_id) db.receipts

abbrev pub is_reviewed : ReceiptStatus → Bool
is_reviewed ReceiptStatus.approved = true
is_reviewed ReceiptStatus.rejected = true
is_reviewed pending = false

-- `list_with_phash(("approved", "rejected"))`
unfoldable pub list_reviewed_with_phash : Database → List PaymentReceipt
list_reviewed_with_phash db =
    select (λ r. is_some r.image_phash && is_reviewed r.status) db.receipts

-- `list_with_phash(("pending",), exclude_user_id=user_id)`
unfoldable pub list_pending_of_others : ℕ → Database → List PaymentReceipt
list_pending_of_others user_id db =
    select (λ r. is_some r.image_phash && is_pending r.status && not (r.user_id == user_id))
      db.receipts
