-- ===== src/Receipts/Reminder.antt =====
-- app/jobs/pending_receipt_reminder.py, with the queries of app/repositories/receipt_repository.py
-- that it runs. A sweep reads the clock once, and sets its markers at that time.
pub mod Once
use testify.Common.{
  ℕ, Bool, true, false, Option, none, some, List, [], ◌∷◌, ◌++◌, map, Text, ◌==◌, ◌+◌, ◌*◌, ◌/◌,
  ◌-◌, ◌&&◌, ◌||◌, ltb, leb, if◌then◌else◌, is_none, select, update, take, not, ◌≡◌, ◌≤◌,
}
use testify.Models.{PaymentReceipt, Database, is_pending}
use testify.Users.Repository

-- ---------- queries ----------

-- `order_by(created_at.asc())`, by insertion.
unfoldable pub insert_by_age : PaymentReceipt → List PaymentReceipt → List PaymentReceipt
insert_by_age r [] = r ∷ []
insert_by_age r (q ∷ rest) =
    let later = q ∷ insert_by_age r rest in
    if leb r.created_at q.created_at then r ∷ q ∷ rest else later

unfoldable pub order_by_age : List PaymentReceipt → List PaymentReceipt
unfolding insert_by_age
order_by_age [] = []
order_by_age (r ∷ rest) = insert_by_age r (order_by_age rest)

abbrev pub is_older : ℕ → PaymentReceipt → Bool
is_older cutoff r = is_pending r.status && ltb r.created_at cutoff

abbrev pub is_unnotified : ℕ → PaymentReceipt → Bool
is_unnotified cutoff r =
    is_pending r.status && is_none r.admin_notification_message_id && ltb r.created_at cutoff

unfoldable pub list_pending_older_than : ℕ → Database → List PaymentReceipt
unfolding order_by_age
list_pending_older_than cutoff db = take 100 (order_by_age (select (is_older cutoff) db.receipts))

unfoldable pub list_pending_unnotified : ℕ → Database → List PaymentReceipt
unfolding order_by_age
list_pending_unnotified cutoff db =
    take 20 (order_by_age (select (is_unnotified cutoff) db.receipts))

unfoldable pub set_admin_notification_message_id : ℕ → ℕ → Database → Database
set_admin_notification_message_id receipt_id message_id db = record db {
  receipts =
      update (λ r. r.id == receipt_id)
        (λ r. record r { admin_notification_message_id = some message_id }) db.receipts;
}

-- ---------- the cards that did not arrive ----------

abbrev pub microseconds_of_minutes : ℕ → ℕ
microseconds_of_minutes n = n * 60000000

-- Telegram's answer to a card: its message id, or a `TelegramAPIError`.
pub data PostReply : Type 0 where
  posted : ℕ → PostReply
  not_posted : PostReply

-- The receipts that get a card: those whose user exists.
abbrev pub has_user : Database → PaymentReceipt → Bool
has_user db r = not (is_none (Repository.get_by_id r.user_id db))

abbrev pub cards : ℕ → Database → List PaymentReceipt
cards now db = select (has_user db) (list_pending_unnotified (now - microseconds_of_minutes 5) db)

-- What a card's answer adds to the list `posted`.
abbrev pub add_posted : ℕ → PostReply → List (ℕ × ℕ) → List (ℕ × ℕ)
add_posted receipt_id (posted message_id) rest = (receipt_id, message_id) ∷ rest
add_posted receipt_id not_posted rest = rest

unfoldable pub post_cards : (PaymentReceipt → PostReply) → List PaymentReceipt → List (ℕ × ℕ)
post_cards post [] = []
post_cards post (r ∷ receipts) = add_posted r.id (post r) (post_cards post receipts)

unfoldable pub attach_all : List (ℕ × ℕ) → Database → Database
unfolding set_admin_notification_message_id
attach_all [] db = db
attach_all ((receipt_id, message_id) ∷ rest) db =
    attach_all rest (set_admin_notification_message_id receipt_id message_id db)

-- `_repost_unnotified_receipts`
unfoldable pub repost_unnotified_receipts : (PaymentReceipt → PostReply) → ℕ → Database → Database
unfolding list_pending_unnotified post_cards attach_all
repost_unnotified_receipts post now db = attach_all (post_cards post (cards now db)) db

-- ---------- the reminders ----------

-- The labels of `_REMINDER_THRESHOLDS`.
pub data Threshold : Type 0 where
  day three_days week : Threshold

abbrev pub hours : Threshold → ℕ
hours day = 24
hours three_days = 72
hours week = 168

abbrev pub threshold_eq : Threshold → Threshold → Bool
threshold_eq day day = true
threshold_eq three_days three_days = true
threshold_eq week week = true
threshold_eq _ _ = false

-- `_marker_key`, by the parts that differ.
pub record Marker : Type 0 where
  pub receipt_id : ℕ
  pub label : Threshold

abbrev pub marker_eq : Marker → Marker → Bool
marker_eq m n = m.receipt_id == n.receipt_id && threshold_eq m.label n.label

-- An entry of `due`.
pub record Reminder : Type 0 where
  pub marker : Marker
  pub age_hours : ℕ

abbrev pub reminder_of : ℕ → Threshold → PaymentReceipt → Reminder
reminder_of now label r =
    let age = (now - r.created_at) / microseconds_of_minutes 60 in
    record {
      marker = record { receipt_id = r.id; label = label };
      age_hours = if ltb age 1 then 1 else age;
    }

unfoldable pub due_at : ℕ → Threshold → Database → List Reminder
unfolding list_pending_older_than
due_at now label db =
    map (reminder_of now label)
      (list_pending_older_than (now - microseconds_of_minutes (60 * hours label)) db)

unfoldable pub due : ℕ → Database → List Reminder
unfolding due_at
due now db = due_at now day db ++ due_at now three_days db ++ due_at now week db

abbrev pub marker_ttl_seconds : ℕ
marker_ttl_seconds = 30 * 24 * 60 * 60

-- When a marker that is set with this `ex` expires; times are in microseconds.
abbrev pub expires_at : ℕ → ℕ → ℕ
expires_at ttl_seconds now = now + ttl_seconds * 1000000

-- redis.asyncio on the markers at a time: `set(…, nx=True, ex=…)`, true where it set, `delete`, and
-- which markers there are. A marker that was set is there until it expires or is deleted; a `set`
-- that does not set leaves it with its expiry.
pub record Markers : Type 1 where
  pub State : Type 0
  pub exists : ℕ → Marker → State → Bool
  pub set_nx : ℕ → ℕ → Marker → State → Bool × State
  pub delete : Marker → State → State
  pub set_nx-exists :
      (ttl now : ℕ) (m : Marker) (s : State) → (set_nx ttl now m s).0 ≡ not (exists now m s)
  pub exists-set_nx :
      (ttl now later : ℕ) (m n : Marker) (s : State)
      → now ≤ later
      → exists later n (set_nx ttl now m s).1 ≡ (
          if marker_eq m n && not (exists now m s)
          then ltb later (expires_at ttl now)
          else exists later n s)
  pub exists-delete :
      (later : ℕ) (m n : Marker) (s : State)
      → exists later n (delete m s) ≡ (if marker_eq m n then false else exists later n s)

-- Redis, and the reminders that were sent so far.
pub record Sweep (Redis : Type 0) : Type 0 where
  pub redis : Redis
  pub sent : List Reminder

module _ (markers : Markers) where
  open markers use {State}

  -- The send of a claimed reminder; where it raises the marker is released.
  abbrev pub send_claimed : Reminder → Bool → Sweep State → Sweep State
  send_claimed r true s = record s { sent = r ∷ s.sent }
  send_claimed r false s = record s { redis = markers.delete r.marker s.redis }

  -- The body of the loop at a time; `sends` says which sends return.
  unfoldable pub remind : (Reminder → Bool) → ℕ → Reminder → Sweep State → Sweep State
  remind sends now r s =
      let (claimed, redis) = markers.set_nx marker_ttl_seconds now r.marker s.redis in
      let s' = record s { redis = redis } in if claimed then send_claimed r (sends r) s' else s'

  unfoldable pub remind_all : (Reminder → Bool) → ℕ → List Reminder → Sweep State → Sweep State
  unfolding remind
  remind_all sends now [] s = s
  remind_all sends now (r ∷ reminders) s = remind_all sends now reminders (remind sends now r s)

  -- `pending_receipt_reminder_job`
  unfoldable pub pending_receipt_reminder_job :
      (PaymentReceipt → PostReply)
      → (Reminder → Bool)
      → ℕ
      → Database
      → Sweep State
      → Database × Sweep State
  unfolding repost_unnotified_receipts due remind_all
  pending_receipt_reminder_job post sends now db s =
      let db' = repost_unnotified_receipts post now db in
      (db', remind_all sends now (due now db') s)
