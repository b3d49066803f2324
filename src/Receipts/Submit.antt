-- ===== src/Receipts/Submit.antt =====
-- `submit` of app/services/receipt_service.py.
pub mod Cap
use testify.Common.{
  ℕ, Bool, Option, some, true, List, Text, none, false, ◌∷◌, is_some, leb, [], find, ◌&&◌, not,
}
use testify.Effects.{
  Action, Result, ok, err, gets, modify, pure, raise_if, ◌>>=◌, ◌>>◌, value_error,
  receipt_limit_exceeded, receipt_already_pending,
}
use testify.Models.{User, PaymentReceipt, ReceiptStatus, Database, is_approved}
use testify.Users.Repository.{find_approved_by_phone}
use testify.Users.Service.{mark_pending_approval}
use testify.Receipts.Repository.{
  new_receipt, create, count_pending_for_user, list_pending_for_user, list_reviewed_with_phash,
  list_pending_of_others,
}
use testify.Receipts.Hash.{is_similar}

-- `ReceiptWarning`, in the order of the enumeration
pub data ReceiptWarning : Type 0 where
  duplicate_approved duplicate_rejected duplicate_pending_other phone_reused : ReceiptWarning

-- The receipt's hash is similar to the new one; without a hash it is passed over.
unfoldable pub matches : ℕ → ℕ → PaymentReceipt → Bool
matches phash threshold r = elim r.image_phash [
  | none ↦ false
  | some other ↦ is_similar phash other threshold
]

abbrev pub is_approved_receipt : PaymentReceipt → Bool
is_approved_receipt r = elim r.status [ ReceiptStatus.approved ↦ true | _ ↦ false ]

-- The warning where its test holds.
abbrev pub warn_if : Bool → ReceiptWarning → List ReceiptWarning → List ReceiptWarning
warn_if true warning rest = warning ∷ rest
warn_if false warning rest = rest

abbrev pub phone_twin : User → Database → Option User
phone_twin user db = elim user.phone [
  | none ↦ none
  | some [] ↦ none
  | some (c ∷ digits) ↦ find_approved_by_phone (c ∷ digits) user.id db
]

-- `_scan_for_warnings`: the set of the signals, in the order of the enumeration.
unfoldable pub scan_for_warnings : User → ℕ → ℕ → Database → List ReceiptWarning
scan_for_warnings user phash threshold db =
    let reviewed = list_reviewed_with_phash db in
    warn_if (is_some (find (λ r. matches phash threshold r && is_approved_receipt r) reviewed))
      duplicate_approved
      (warn_if
        (is_some (find (λ r. matches phash threshold r && not (is_approved_receipt r)) reviewed))
        duplicate_rejected
        (warn_if (is_some (find (matches phash threshold) (list_pending_of_others user.id db)))
          duplicate_pending_other (warn_if (is_some (phone_twin user db)) phone_reused [])))

abbrev pub decoded : {S : Type 0} → Option ℕ → Action S ℕ
decoded none s = (err value_error, s)
decoded (some phash) s = (ok phash, s)

-- `submit`. `image_hash` is `ImageHasher.hash` of the photo, `none` where it does not decode; `id` and
-- `now` are the id and the time that the server gives the row.
unfoldable pub submit :
    ℕ
    → ℕ
    → ℕ
    → ℕ
    → Option ℕ
    → User
    → Text
    → Text
    → Action Database (PaymentReceipt × List ReceiptWarning)
submit max_pending threshold id now image_hash user file_id file_unique_id = do
  pending_count ← gets (count_pending_for_user user.id)
  raise_if (leb max_pending pending_count) receipt_limit_exceeded
  phash ← decoded image_hash
  queue ← gets (list_pending_for_user user.id)
  raise_if (is_some (find (matches phash threshold) queue)) receipt_already_pending
  warnings ← gets (scan_for_warnings user phash threshold)
  let receipt = new_receipt id user.id file_id file_unique_id phash now
  modify (create receipt)
  modify (mark_pending_approval user.id)
  pure (receipt, warnings)
