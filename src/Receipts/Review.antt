-- ===== src/Receipts/Review.antt =====
-- `approve` and `reject` of app/services/receipt_service.py.
pub mod Once
pub mod Ban
use testify.Utils.Strip.{is_empty}
use testify.Common.{Option, Bool, Text, ℕ, true, ◌==◌, some, ◌&&◌, ◌∷◌, none, false, []}
use testify.Effects.{
  writing, Action, Result, ok, err, gets, modify, pure, raise, raise_if, assert_some,
  in_transaction, ◌>>=◌, ◌>>◌, value_error, receipt_already_processed, receipt_user_banned,
}
use testify.Models.{User, Database, is_banned, Test}
use testify.Users.Repository as Users
use testify.Receipts.Repository
use testify.Receipts.Repository.{get_by_id}

-- `approved_user is None or approved_user.status == "banned"`
abbrev pub is_missing_or_banned : Option User → Bool
is_missing_or_banned none = true
is_missing_or_banned (some user) = is_banned user.status

-- `approve`; `now` is the time of the receipt's update and `now'` that of the user's.
unfoldable pub approve : Bool → ℕ → ℕ → ℕ → ℕ → Action Database User
approve found_rows receipt_id admin_id now now' = do
  rowcount ← writing (Repository.mark_approved receipt_id admin_id now)
  raise_if (rowcount == 0) receipt_already_processed
  receipt ← assert_some (← gets (get_by_id receipt_id))
  user_rows ← writing (Users.mark_approved found_rows receipt.user_id now')
  approved_user ← gets (Users.get_by_id receipt.user_id)
  raise_if (user_rows == 0 && is_missing_or_banned approved_user) receipt_user_banned
  assert_some approved_user

-- `reject`; `strip` is `str.strip`.
unfoldable pub reject : (Text → Text) → ℕ → ℕ → Text → ℕ → Action Database User
reject strip receipt_id admin_id reason now = do
  raise_if (is_empty (strip reason)) value_error
  rowcount ← writing (Repository.mark_rejected receipt_id admin_id (strip reason) now)
  raise_if (rowcount == 0) receipt_already_processed
  receipt ← assert_some (← gets (get_by_id receipt_id))
  modify (Users.mark_rejected receipt.user_id)
  assert_some (← gets (Users.get_by_id receipt.user_id))

-- An admin's decision on a receipt, as one request: an exception rolls the database back.
pub data Decision : Type 0 where
  approval : Bool → ℕ → ℕ → ℕ → Decision
  rejection : (Text → Text) → ℕ → Text → ℕ → Decision

unfoldable pub decide : ℕ → Decision → Action Database User
unfolding in_transaction
decide receipt_id (approval found_rows admin_id now now') =
    in_transaction (approve found_rows receipt_id admin_id now now')
decide receipt_id (rejection strip admin_id reason now) =
    in_transaction (reject strip receipt_id admin_id reason now)
