-- ===== src/Receipts/Review/Ban.antt =====
-- Decisions on receipts, and users who were banned in the meantime.
use testify.Common.{
  ℕ, ◌≡◌, Bool, true, List, some, arith, Text, Option-cases, inl, find, inr, false, update, refl,
  find-update,
}
use testify.Effects.{Result-cases, Action, in_transaction, after}
use testify.Models.{User, Database, is_banned, UserStatus}
use testify.Users.Repository as Users
use testify.Users.Repository.{has_id, is_unbanned_row}
use testify.Receipts.Repository
use testify.Receipts.Repository.{get_by_id}
use testify.Receipts.Review.{approve, reject, Decision, approval, rejection, decide}

-- A row that an update does not match is still found.
find-update_passed {ℓ} :
    {A : Type ℓ} (p q : A → Bool) (f : A → A) (xs : List A) (x : A)
    → ((y : A) → q (f y) ≡ q y)
    → find q xs ≡ some x
    → p x ≡ false
    → find q (update p f xs) ≡ some x
find-update_passed p q f xs x keep found miss = rw (find-update p q f xs keep, found, miss) refl

after-in_transaction :
    {A : Type 0} (P : Database → Type 0) (m : Action Database A) (db : Database)
    → P db
    → P (after m db)
    → P (after (in_transaction m) db)
unfolding in_transaction
after-in_transaction P m db before done = elim (Result-cases ((m db).0)) [
  | inl (a, e) ↦ rw (e, after) done
  | inr (x, e) ↦ rw (e, after) before
]

module _ (user_id : ℕ) (row : User) (banned : is_banned row.status ≡ true) where
  abbrev IsFound : Database → Type 0
  IsFound db = Users.get_by_id user_id db ≡ some row

  IsFound-approve_user :
      (found_rows : Bool) (id now : ℕ) (db : Database)
      → IsFound db
      → IsFound (Users.mark_approved found_rows id now db).1
  unfolding Users.mark_approved Users.get_by_id
  IsFound-approve_user found_rows id now db found =
      find-update_passed (is_unbanned_row id) (has_id user_id) (Users.approved_row now) db.users row
        (λ y. refl) found (ground arith)

  IsFound-reject_user : (id : ℕ) (db : Database) → IsFound db → IsFound (Users.mark_rejected id db)
  unfolding Users.mark_rejected Users.get_by_id
  IsFound-reject_user id db found =
      find-update_passed (is_unbanned_row id) (has_id user_id)
        (λ u. record u { status = UserStatus.rejected }) db.users row (λ y. refl) found
        (ground arith)

  IsFound-approve_receipt :
      (receipt_id admin_id now : ℕ) (db : Database)
      → IsFound db
      → IsFound (Repository.mark_approved receipt_id admin_id now db).1
  unfolding Repository.mark_approved Users.get_by_id
  IsFound-approve_receipt receipt_id admin_id now db found = found

  IsFound-reject_receipt :
      (receipt_id admin_id : ℕ) (reason : Text) (now : ℕ) (db : Database)
      → IsFound db
      → IsFound (Repository.mark_rejected receipt_id admin_id reason now db).1
  unfolding Repository.mark_rejected Users.get_by_id
  IsFound-reject_receipt receipt_id admin_id reason now db found = found

  approve_keeps :
      (found_rows : Bool) (receipt_id admin_id now now' : ℕ) (db : Database)
      → IsFound db
      → IsFound (after (approve found_rows receipt_id admin_id now now') db)
  unfolding approve
  approve_keeps found_rows receipt_id admin_id now now' db found =
      let db1 = (Repository.mark_approved receipt_id admin_id now db).1 in
      let found1 = IsFound-approve_receipt receipt_id admin_id now db found in
      elim (Option-cases (get_by_id receipt_id db1)) [
        | inl missing ↦ ground (arith, missing, found1)
        | inr (r, here) ↦
            ground (arith, here, found1, IsFound-approve_user found_rows r.user_id now' db1 found1)
      ]

  reject_keeps :
      (strip : Text → Text) (receipt_id admin_id : ℕ) (reason : Text) (now : ℕ) (db : Database)
      → IsFound db
      → IsFound (after (reject strip receipt_id admin_id reason now) db)
  unfolding reject
  reject_keeps strip receipt_id admin_id reason now db found =
      let db1 = (Repository.mark_rejected receipt_id admin_id (strip reason) now db).1 in
      let found1 = IsFound-reject_receipt receipt_id admin_id (strip reason) now db found in
      elim (Option-cases (get_by_id receipt_id db1)) [
        | inl missing ↦ ground (arith, missing, found1)
        | inr (r, here) ↦ ground (arith, here, found1, IsFound-reject_user r.user_id db1 found1)
      ]

-- A ban outlasts a decision: the row of a banned user is the same after a decision on any receipt,
-- whether the decision returns or raises.
pub decide_keeps_ban :
    (user_id : ℕ) (row : User) (receipt_id : ℕ) (d : Decision) (db : Database)
    → is_banned row.status ≡ true
    → Users.get_by_id user_id db ≡ some row
    → Users.get_by_id user_id (after (decide receipt_id d) db) ≡ some row
unfolding decide
decide_keeps_ban user_id row receipt_id (approval found_rows admin_id now now') db banned found =
    after-in_transaction (IsFound user_id row banned)
      (approve found_rows receipt_id admin_id now now') db found
      (approve_keeps user_id row banned found_rows receipt_id admin_id now now' db found)
decide_keeps_ban user_id row receipt_id (rejection strip admin_id reason now) db banned found =
    after-in_transaction (IsFound user_id row banned) (reject strip receipt_id admin_id reason now)
      db found (reject_keeps user_id row banned strip receipt_id admin_id reason now db found)
