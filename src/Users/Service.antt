-- ===== src/Users/Service.antt =====
-- app/services/user_service.py. The methods that only log on a wrong status return unchanged data.
pub mod Funnel
use testify.Common.{
  Bool, ℕ, Option, some, true, Text, false, if◌then◌else◌, none, insert, ◌∷◌, ◌&&◌, [], is_some,
}
use testify.Effects.{Action, Result, ok, err, invalid_name}
use testify.Models.{
  User, Database, UserStatus, new, onboarding_phone, onboarding_name, pending_payment,
  pending_approval, banned, is_banned,
}
use testify.Utils.Phone.{normalize_phone}
use testify.Users.Name.{Unicode, is_valid_name}
use testify.Users.Repository
use testify.Users.Repository.{
  get_by_id, get_by_telegram_id, set_status, set_reference_code, new_user,
}

-- The status tests of the methods.
abbrev pub is_new : UserStatus → Bool
is_new new = true
is_new _ = false

abbrev pub before_phone : UserStatus → Bool
before_phone new = true
before_phone onboarding_phone = true
before_phone _ = false

abbrev pub before_name : UserStatus → Bool
before_name onboarding_name = true
before_name _ = false

abbrev pub before_payment : UserStatus → Bool
before_payment onboarding_name = true
before_payment new = true
before_payment onboarding_phone = true
before_payment _ = false

abbrev pub may_submit : UserStatus → Bool
may_submit pending_payment = true
may_submit UserStatus.rejected = true
may_submit _ = false

-- `user is None or not test(user.status): return`, and `f` otherwise.
abbrev pub where_status :
    (UserStatus → Bool) → (Database → Database) → Option User → Database → Database
where_status test f none db = db
where_status test f (some user) db = if test user.status then f db else db

-- `get_or_create`; `id` is the id of the row that may be inserted.
unfoldable pub get_or_create : ℕ → ℕ → Option Text → Action Database User
get_or_create id telegram_id username db = elim (get_by_telegram_id telegram_id db) [
  | some user ↦ (ok user, db)
  | none ↦
      let user = new_user id telegram_id username in
      (ok user, record db { users = insert user db.users })
]

unfoldable pub start_onboarding : ℕ → Database → Database
start_onboarding user_id db =
    where_status is_new (set_status user_id onboarding_phone) (get_by_id user_id db) db

-- The two writes of `set_phone`, unless the contact held no digit.
abbrev pub write_phone : ℕ → Text → Database → Database
write_phone user_id [] db = db
write_phone user_id (c ∷ digits) db =
    set_status user_id onboarding_name (Repository.set_phone user_id (c ∷ digits) db)

unfoldable pub set_phone : Unicode → ℕ → Text → Database → Database
set_phone unicode user_id phone db =
    where_status before_phone (write_phone user_id (normalize_phone unicode.is_digit (some phone)))
      (get_by_id user_id db) db

unfoldable pub set_name : Unicode → ℕ → Text → Action Database Unit
set_name unicode user_id name db =
    let cleaned = unicode.nfc_strip name in
    if is_valid_name unicode cleaned
    then (
      ok tt,
      where_status before_name (Repository.set_name user_id cleaned) (get_by_id user_id db) db,
    )
    else (err invalid_name, db)

unfoldable pub attach_reference_code : ℕ → Text → Database → Database
attach_reference_code user_id reference_code db =
    where_status before_payment
      (λ d. set_status user_id pending_payment (set_reference_code user_id reference_code d))
      (get_by_id user_id db) db

unfoldable pub mark_pending_approval : ℕ → Database → Database
mark_pending_approval user_id db =
    where_status may_submit (set_status user_id pending_approval) (get_by_id user_id db) db

unfoldable pub ban : ℕ → Database → Database
ban user_id = set_status user_id banned

-- The row that `unban` restores.
abbrev pub may_restore : Option User → Bool
may_restore none = false
may_restore (some user) = is_banned user.status && is_some user.approved_at

unfoldable pub unban : ℕ → Database → Bool × Database
unban user_id db =
    if may_restore (get_by_id user_id db)
    then (true, set_status user_id UserStatus.approved db)
    else (false, db)
