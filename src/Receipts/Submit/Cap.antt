-- ===== src/Receipts/Submit/Cap.antt =====
-- The cap on pending receipts, and what a refused submission leaves.
use testify.Common.{
  ℕ, ◌≡◌, Option, arith, Text, ◌⊎◌, insert, count, ◌<◌, some, none, List, ◌≤◌, inl, Bool-cases, inr,
  subst, count-insert,
}
use testify.Effects.{err, Error, outcome, after}
use testify.Models.{User, Database, PaymentReceipt}
use testify.Users.Repository.{set_status}
use testify.Users.Service.{mark_pending_approval}
use testify.Receipts.Repository.{is_pending_of, new_receipt, create, count_pending_for_user}
use testify.Receipts.Submit.{submit}

receipts-mark_pending_approval :
    (user_id : ℕ) (db : Database) → (mark_pending_approval user_id db).receipts ≡ db.receipts
unfolding mark_pending_approval set_status
receipts-mark_pending_approval user_id db = ground arith

module _ (max_pending threshold id now : ℕ) (image_hash : Option ℕ) (user : User)
    (file_id file_unique_id : Text) (db : Database) where
  -- A submission that raises has written nothing.
  pub submit_refused :
      (e : Error)
      → outcome (submit max_pending threshold id now image_hash user file_id file_unique_id) db
        ≡ err e
      → after (submit max_pending threshold id now image_hash user file_id file_unique_id) db ≡ db
  unfolding submit
  submit_refused e h = ground arith

module _ (max_pending threshold id now : ℕ) (user : User) (file_id file_unique_id : Text)
    (db : Database) where
  submit_receipts :
      (phash : ℕ)
      → let left =
          after (submit max_pending threshold id now (some phash) user file_id file_unique_id) db in
        (left.receipts ≡ db.receipts)
        ⊎ (left.receipts
            ≡ insert (new_receipt id user.id file_id file_unique_id phash now) db.receipts)
          × (count (is_pending_of user.id) db.receipts < max_pending)
  unfolding submit create count_pending_for_user
  submit_receipts phash = ground (
    arith,
    receipts-mark_pending_approval user.id
        (create (new_receipt id user.id file_id file_unique_id phash now) db),
  )

  submit_undecoded :
      after (submit max_pending threshold id now none user file_id file_unique_id) db ≡ db
  unfolding submit
  submit_undecoded = ground arith

-- One more pending receipt of a user who was below the cap.
count-insert_below :
    (r : PaymentReceipt) (u cap : ℕ) (receipts : List PaymentReceipt)
    → count (is_pending_of r.user_id) receipts < cap
    → count (is_pending_of u) receipts ≤ cap
    → count (is_pending_of u) (insert r receipts) ≤ cap
unfolding count
count-insert_below r u cap receipts below few = elim (Bool-cases (is_pending_of u r)) [
  | inl same ↦
      let eu : r.user_id ≡ u = ground arith in
      let below' : count (is_pending_of u) receipts < cap =
        subst (λ v. count (is_pending_of v) receipts < cap) eu below in
      rw (count-insert (is_pending_of u) r receipts) (ground arith)
  | inr other ↦ rw (count-insert (is_pending_of u) r receipts) (ground arith)
]

-- Where no user has more pending receipts than the cap, no user has more after a submission, whether
-- it is accepted or refused.
pub submit_cap :
    (max_pending threshold id now : ℕ) (image_hash : Option ℕ) (user : User)
    (file_id file_unique_id : Text) (db : Database)
    → ((u : ℕ) → count_pending_for_user u db ≤ max_pending)
    → (u : ℕ)
    → let left =
        after (submit max_pending threshold id now image_hash user file_id file_unique_id) db in
      count_pending_for_user u left ≤ max_pending
unfolding count_pending_for_user
submit_cap max_pending threshold id now none user file_id file_unique_id db h u =
    rw (submit_undecoded max_pending threshold id now user file_id file_unique_id db) (h u)
submit_cap max_pending threshold id now (some phash) user file_id file_unique_id db h u =
    elim (submit_receipts max_pending threshold id now user file_id file_unique_id db phash) [
      | inl same ↦ rw same (h u)
      | inr (more, below) ↦ rw more (
          count-insert_below (new_receipt id user.id file_id file_unique_id phash now) u max_pending
            db.receipts below (h u))
    ]
