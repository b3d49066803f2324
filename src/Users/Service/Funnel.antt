-- ===== src/Users/Service/Funnel.antt =====
-- The state machine of a user: every method moves a row along an edge of the funnel.
pub mod Edges
use testify.Users.Service.Funnel.Edges.{
  EvolvesTo, Evolves, EvolvesTo-refl, EvolvesTo-update, update_user-Evolves, where_status-Evolves,
  update_user_twice, where_status_id,
}
use testify.Common.{
  ℕ, Bool, ◌≡◌, Option, arith, some, Text, true, ◌≤◌, List, none, false, find, is_some, update,
  if◌then◌else◌, ==_iff, Bool-cases, inl, find-some, inr, subst, refl, find-update, sym, ◌∙◌,
  update-update, ◌∷◌, [], insert, Option-cases, ◌==◌, ◌&&◌,
}
use mathlib.Core.Option
use testify.Effects.{after}
use testify.Models.{
  User, Database, UserStatus, new, onboarding_phone, onboarding_name, is_banned, is_approved,
  pending_approval, banned, pending_payment,
}
use testify.Users.Name.{is_valid_name, Unicode}
use testify.Users.Repository
use testify.Users.Repository.{
  has_id, get_by_id, mark_approved, mark_rejected, mark_bot_blocked, update_user, set_status,
  is_unbanned_row, approved_row, set_reference_code, clear_bot_blocked, new_user,
  get_by_telegram_id,
}
use testify.Utils.Phone.{normalize_phone}
use testify.Users.Service.{
  before_payment, before_name, before_phone, write_phone, is_new, may_submit, start_onboarding,
  set_phone, set_name, attach_reference_code, mark_pending_approval, ban, unban, where_status,
  may_restore, get_or_create,
}

-- The writing methods of `UserService`, `get_or_create` with the id of the row that it may insert.
pub data Request : Type 0 where
  onboarding_request pending_request reject_request ban_request unban_request : ℕ → Request
  phone_request name_request code_request : ℕ → Text → Request
  approve_request : Bool → ℕ → ℕ → Request
  blocked_request reachable_request : ℕ → Request
  create_request : ℕ → ℕ → Option Text → Request

unfoldable pub perform : Unicode → Request → Database → Database
perform unicode (onboarding_request id) db = start_onboarding id db
perform unicode (phone_request id phone) db = set_phone unicode id phone db
perform unicode (name_request id name) db = after (set_name unicode id name) db
perform unicode (code_request id code) db = attach_reference_code id code db
perform unicode (pending_request id) db = mark_pending_approval id db
perform unicode (approve_request found_rows id now) db = (mark_approved found_rows id now db).1
perform unicode (reject_request id) db = mark_rejected id db
perform unicode (ban_request id) db = ban id db
perform unicode (unban_request id) db = (unban id db).1
perform unicode (blocked_request id) db = mark_bot_blocked id db
perform unicode (reachable_request id) db = clear_bot_blocked id db
perform unicode (create_request id telegram_id username) db =
    after (get_or_create id telegram_id username) db

unban_step :
    (a : User) → may_restore (some a) ≡ true → Evolves a (record a { status = UserStatus.approved })
unban_step a h = ground arith

write_phone-Evolves :
    (digits : Text) (id u : ℕ) (db : Database)
    → EvolvesTo
        (get_by_id u db)
        (get_by_id u (where_status before_phone (write_phone id digits) (get_by_id id db) db))
write_phone-Evolves [] id u db =
    rw (where_status_id before_phone (get_by_id id db) db) (EvolvesTo-refl (get_by_id u db))
write_phone-Evolves (c ∷ digits) id u db =
    where_status-Evolves before_phone (write_phone id (c ∷ digits))
      (λ a. record a { phone = some (c ∷ digits); status = onboarding_name }) id u db
      (unfold set_status Repository.set_phone in
        update_user_twice (λ a. record a { phone = some (c ∷ digits) })
          (λ a. record a { status = onboarding_name }) id db (λ a. refl))
      (λ a. refl) (λ a t. ground arith)

-- A new row changes no row that there is.
EvolvesTo-insert :
    (a : User) (u : ℕ) (users : List User)
    → EvolvesTo (find (has_id u) users) (find (has_id u) (insert a users))
unfolding find insert
EvolvesTo-insert a u [] = tt
EvolvesTo-insert a u (x ∷ users) = elim (Bool-cases (x.id == u)) [
  | inl hit ↦ rw hit (EvolvesTo-refl (some x))
  | inr miss ↦ rw miss (EvolvesTo-insert a u users)
]

-- Whatever writing method of the service is called, for whatever user, every row that there is stays
-- or moves along the funnel:
-- its id stays, onboarding only goes forward, a ban is lifted only by a return to `approved` of a
-- user who had been approved, the time of the approval is never overwritten, after onboarding the
-- phone, the name and the reference code stay, and an approved user has the time of the approval.
pub perform-Evolves :
    (unicode : Unicode) (r : Request) (u : ℕ) (db : Database)
    → EvolvesTo (get_by_id u db) (get_by_id u (perform unicode r db))
unfolding perform unban set_name get_or_create get_by_id
perform-Evolves unicode (onboarding_request id) u db =
    unfold start_onboarding set_status in
    where_status-Evolves is_new (set_status id onboarding_phone)
      (λ a. record a { status = onboarding_phone }) id u db refl (λ a. refl) (λ a t. ground arith)
perform-Evolves unicode (phone_request id phone) u db =
    unfold set_phone in write_phone-Evolves (normalize_phone unicode.is_digit (some phone)) id u db
perform-Evolves unicode (name_request id name) u db =
    let cleaned = unicode.nfc_strip name in
    elim (Bool-cases (is_valid_name unicode cleaned)) [
      | inl t ↦
          rw (t, set_name)
            (where_status-Evolves before_name (Repository.set_name id cleaned)
              (λ a. record a { full_name = some cleaned }) id u db
              (unfold Repository.set_name in refl) (λ a. refl) (λ a e. ground arith))
      | inr t ↦ rw (t, set_name) (EvolvesTo-refl (get_by_id u db))
    ]
perform-Evolves unicode (code_request id code) u db =
    unfold attach_reference_code in
    where_status-Evolves before_payment
      (λ d. set_status id pending_payment (set_reference_code id code d))
      (λ a. record a { reference_code = some code; status = pending_payment }) id u db
      (unfold set_status set_reference_code in
        update_user_twice (λ a. record a { reference_code = some code })
          (λ a. record a { status = pending_payment }) id db (λ a. refl))
      (λ a. refl) (λ a t. ground arith)
perform-Evolves unicode (pending_request id) u db =
    unfold mark_pending_approval set_status in
    where_status-Evolves may_submit (set_status id pending_approval)
      (λ a. record a { status = pending_approval }) id u db refl (λ a. refl) (λ a t. ground arith)
perform-Evolves unicode (approve_request found_rows id now) u db =
    unfold mark_approved get_by_id in
    EvolvesTo-update (is_unbanned_row id) (approved_row now) u db.users (λ a. refl)
      (λ a found t. ground arith)
perform-Evolves unicode (reject_request id) u db =
    unfold mark_rejected get_by_id in
    EvolvesTo-update (is_unbanned_row id) (λ a. record a { status = UserStatus.rejected }) u
      db.users (λ a. refl) (λ a found t. ground arith)
perform-Evolves unicode (ban_request id) u db =
    unfold ban set_status in
    update_user-Evolves (λ a. record a { status = banned }) id u db (λ a. refl)
      (λ a found. ground arith)
perform-Evolves unicode (unban_request id) u db =
    elim (Bool-cases (may_restore (get_by_id id db))) [
      | inl t ↦
          rw (t, perform, unban)
            (unfold set_status in
              update_user-Evolves (λ a. record a { status = UserStatus.approved }) id u db
                (λ a. refl) λ a found. unban_step a (rw found at t))
      | inr t ↦ rw (t, perform, unban) (EvolvesTo-refl (get_by_id u db))
    ]
perform-Evolves unicode (blocked_request id) u db =
    unfold mark_bot_blocked in
    update_user-Evolves (λ a. record a { bot_blocked = true }) id u db (λ a. refl)
      (λ a found. ground arith)
perform-Evolves unicode (reachable_request id) u db =
    unfold clear_bot_blocked get_by_id in
    EvolvesTo-update (λ a. a.id == id && a.bot_blocked) (λ a. record a { bot_blocked = false }) u
      db.users (λ a. refl) (λ a found t. ground arith)
perform-Evolves unicode (create_request id telegram_id username) u db =
    elim (Option-cases (get_by_telegram_id telegram_id db)) [
      | inl missing ↦
          rw (missing, perform, after, get_or_create)
            (unfold get_by_id in EvolvesTo-insert (new_user id telegram_id username) u db.users)
      | inr (user, found) ↦
          rw (found, perform, after, get_or_create) (EvolvesTo-refl (get_by_id u db))
    ]
