-- ===== src/Broadcasts/Repository.antt =====
-- app/models/broadcast.py, app/repositories/broadcast_repository.py, and the recipients of
-- app/repositories/user_repository.py.
use testify.Common.{
  ℕ, Bool, Option, none, some, List, [], ◌∷◌, ◌==◌, ◌&&◌, not, ltb, leb, if◌then◌else◌, find,
  select, update, insert, count, true, false, take,
}
use testify.Models.{User, Database, is_approved}

pub data BroadcastStatus : Type 0 where
  in_progress completed : BroadcastStatus

abbrev pub is_in_progress : BroadcastStatus → Bool
is_in_progress in_progress = true
is_in_progress completed = false

-- `created_at` is left out.
pub record Broadcast : Type 0 where
  pub id : ℕ
  pub source_chat_id : ℕ
  pub source_message_id : ℕ
  pub status : BroadcastStatus
  pub created_by_admin_id : Option ℕ
  pub report_chat_id : Option ℕ
  pub total_recipients : ℕ
  pub sent_count : ℕ
  pub blocked_count : ℕ
  pub error_count : ℕ
  pub last_user_id : ℕ
  pub finished_at : Option ℕ

-- The users of the database, and the announcements.
pub record Store : Type 0 where
  pub db : Database
  pub broadcasts : List Broadcast

abbrev pub has_id : ℕ → Broadcast → Bool
has_id broadcast_id b = b.id == broadcast_id

unfoldable pub get_by_id : ℕ → Store → Option Broadcast
get_by_id broadcast_id w = find (has_id broadcast_id) w.broadcasts

abbrev pub progressed : ℕ → ℕ → ℕ → ℕ → Broadcast → Broadcast
progressed sent_count blocked_count error_count last_user_id b = record b {
  sent_count = sent_count;
  blocked_count = blocked_count;
  error_count = error_count;
  last_user_id = last_user_id;
}

unfoldable pub record_progress : ℕ → ℕ → ℕ → ℕ → ℕ → Store → Store
record_progress broadcast_id sent_count blocked_count error_count last_user_id w = record w {
  broadcasts =
      update (has_id broadcast_id) (progressed sent_count blocked_count error_count last_user_id)
        w.broadcasts;
}

-- `Broadcast.id == broadcast_id, Broadcast.status == "in_progress"`
abbrev pub is_running : ℕ → Broadcast → Bool
is_running broadcast_id b = b.id == broadcast_id && is_in_progress b.status

abbrev pub completed_row : ℕ → Broadcast → Broadcast
completed_row now b = record b { status = completed; finished_at = some now }

unfoldable pub mark_completed : ℕ → ℕ → Store → ℕ × Store
mark_completed broadcast_id now w = (
  count (is_running broadcast_id) w.broadcasts,
  record w { broadcasts = update (is_running broadcast_id) (completed_row now) w.broadcasts },
)

-- ---------- recipients ----------

-- `order_by(User.id)`
unfoldable pub insert_by_id : User → List User → List User
insert_by_id u [] = u ∷ []
insert_by_id u (x ∷ xs) =
    let rest = insert_by_id u xs in if leb u.id x.id then u ∷ x ∷ xs else x ∷ rest

unfoldable pub order_by_id : List User → List User
unfolding insert_by_id
order_by_id [] = []
order_by_id (x ∷ xs) = insert_by_id x (order_by_id xs)

-- `User.status == "approved", User.bot_blocked.is_(False), User.id > cursor_user_id`
abbrev pub is_recipient_after : ℕ → User → Bool
is_recipient_after cursor_user_id u =
    is_approved u.status && not u.bot_blocked && ltb cursor_user_id u.id

unfoldable pub list_approved_after : ℕ → ℕ → Database → List User
unfolding order_by_id
list_approved_after cursor_user_id limit db =
    take limit (order_by_id (select (is_recipient_after cursor_user_id) db.users))

unfoldable pub count_approved_for_broadcast : Database → ℕ
count_approved_for_broadcast db = count (λ u. is_approved u.status && not u.bot_blocked) db.users

-- ---------- creation ----------

-- The row of `BroadcastService.create`; `id` is the id that the server gives it.
abbrev pub new_broadcast : ℕ → ℕ → ℕ → Option ℕ → Option ℕ → ℕ → Broadcast
new_broadcast id source_chat_id source_message_id created_by_admin_id report_chat_id total =
    record {
      id = id;
      source_chat_id = source_chat_id;
      source_message_id = source_message_id;
      status = in_progress;
      created_by_admin_id = created_by_admin_id;
      report_chat_id = report_chat_id;
      total_recipients = total;
      sent_count = 0;
      blocked_count = 0;
      error_count = 0;
      last_user_id = 0;
      finished_at = none;
    }

unfoldable pub create : ℕ → ℕ → ℕ → Option ℕ → Option ℕ → Store → Store
create id source_chat_id source_message_id created_by_admin_id report_chat_id w = record w {
  broadcasts =
      insert
        (new_broadcast id source_chat_id source_message_id created_by_admin_id report_chat_id
          (count_approved_for_broadcast w.db))
        w.broadcasts;
}
