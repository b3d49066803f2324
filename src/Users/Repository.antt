-- ===== src/Users/Repository.antt =====
-- The statements of app/repositories/user_repository.py.
use testify.Common.{
  ℕ, Option, Bool, Text, ◌==◌, find, update, some, not, count, none, ◌&&◌, false, is_some, ◌||◌,
  text_eq, true,
}
use testify.Models.{new, User, Database, UserStatus, is_banned, is_approved}

abbrev pub has_id : ℕ → User → Bool
has_id user_id u = u.id == user_id

unfoldable pub get_by_id : ℕ → Database → Option User
get_by_id user_id db = find (has_id user_id) db.users

unfoldable pub get_by_telegram_id : ℕ → Database → Option User
get_by_telegram_id telegram_id db = find (λ u. u.telegram_id == telegram_id) db.users

-- `update(User).where(User.id == user_id).values(f)`
unfoldable pub update_user : ℕ → (User → User) → Database → Database
update_user user_id f db = record db { users = update (has_id user_id) f db.users }

unfoldable pub set_phone : ℕ → Text → Database → Database
unfolding update_user
set_phone user_id phone = update_user user_id (λ u. record u { phone = some phone })

unfoldable pub set_name : ℕ → Text → Database → Database
unfolding update_user
set_name user_id full_name = update_user user_id (λ u. record u { full_name = some full_name })

unfoldable pub set_reference_code : ℕ → Text → Database → Database
unfolding update_user
set_reference_code user_id code = update_user user_id (λ u. record u { reference_code = some code })

unfoldable pub set_status : ℕ → UserStatus → Database → Database
unfolding update_user
set_status user_id status = update_user user_id (λ u. record u { status = status })

-- `User.id == user_id, User.status != "banned"`
abbrev pub is_unbanned_row : ℕ → User → Bool
is_unbanned_row user_id u = u.id == user_id && not (is_banned u.status)

-- `func.coalesce(User.approved_at, now)`
abbrev pub coalesce : Option ℕ → ℕ → Option ℕ
coalesce none now = some now
coalesce (some t) now = some t

abbrev pub approved_row : ℕ → User → User
approved_row now u = record u {
  status = UserStatus.approved;
  approved_at = coalesce u.approved_at now;
}

-- The update of `mark_approved` changes the row.
abbrev pub approval_changes : User → Bool
approval_changes u = not (is_approved u.status && is_some u.approved_at)

-- `mark_approved`. The driver counts the rows that matched where `found_rows`, and otherwise only
-- the rows that changed.
unfoldable pub mark_approved : Bool → ℕ → ℕ → Database → ℕ × Database
mark_approved found_rows user_id now db = (
  count (λ u. is_unbanned_row user_id u && (found_rows || approval_changes u)) db.users,
  record db { users = update (is_unbanned_row user_id) (approved_row now) db.users },
)

unfoldable pub mark_rejected : ℕ → Database → Database
mark_rejected user_id db = record db {
  users =
      update (is_unbanned_row user_id) (λ u. record u { status = UserStatus.rejected }) db.users;
}

unfoldable pub mark_bot_blocked : ℕ → Database → Database
unfolding update_user
mark_bot_blocked user_id = update_user user_id (λ u. record u { bot_blocked = true })

-- `User.id == user_id, User.bot_blocked.is_(True)`
unfoldable pub clear_bot_blocked : ℕ → Database → Database
clear_bot_blocked user_id db = record db {
  users =
      update (λ u. u.id == user_id && u.bot_blocked) (λ u. record u { bot_blocked = false })
        db.users;
}

-- The new row of `create`.
abbrev pub new_user : ℕ → ℕ → Option Text → User
new_user id telegram_id username = record {
  id = id;
  telegram_id = telegram_id;
  username = username;
  full_name = none;
  phone = none;
  reference_code = none;
  status = new;
  bot_blocked = false;
  approved_at = none;
}

-- An approved user other than `exclude_user_id` with this phone.
unfoldable pub find_approved_by_phone : Text → ℕ → Database → Option User
find_approved_by_phone phone exclude_user_id db =
    find
      (λ u.
        (elim u.phone [ none ↦ false | some p ↦ text_eq p phone ])
        && is_approved u.status
        && not (u.id == exclude_user_id))
      db.users
