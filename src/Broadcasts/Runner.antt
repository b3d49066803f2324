-- ===== src/Broadcasts/Runner.antt =====
-- app/jobs/broadcast_runner.py, with `copy_broadcast_message` of app/services/notification_service.py.
-- The token bucket only delays a message.
use testify.Common.{
  ℕ, zero, suc, Bool, Option, none, some, List, [], ◌∷◌, ◌+◌, ◌==◌, if◌then◌else◌, ltb, true, false,
  ◌++◌,
}
use testify.Models.{User, Database}
use testify.Users.Repository.{mark_bot_blocked}
use testify.Broadcasts.Repository.{
  Broadcast, Store, get_by_id, is_in_progress, list_approved_after, record_progress, mark_completed,
}

-- Telegram's answer to one `copyMessage`: a return, one of the exceptions that the loop catches, or
-- any other exception.
pub data Reply : Type 0 where
  delivered forbidden api_error exception : Reply
  retry_after : ℕ → Reply

pub data CopyStatus : Type 0 where
  sent blocked error : CopyStatus

abbrev pub max_send_attempts : ℕ
max_send_attempts = 3

-- What an attempt makes of Telegram's reply; `rest` are the attempts after it, and `none` is an
-- exception that leaves the loop.
abbrev pub after_reply : Reply → ℕ → Option CopyStatus → Option CopyStatus
after_reply delivered attempt rest = some sent
after_reply forbidden attempt rest = some blocked
after_reply api_error attempt rest = some error
after_reply exception attempt rest = none
after_reply (retry_after seconds) attempt rest =
    if attempt == max_send_attempts then some error else rest

-- The loop of `copy_broadcast_message` from an attempt on.
unfoldable pub copy_from : (ℕ → Reply) → ℕ → ℕ → Option CopyStatus
copy_from reply attempt zero = some error
copy_from reply attempt (suc left) =
    let rest = copy_from reply (attempt + 1) left in after_reply (reply attempt) attempt rest

-- Where a batch stands. `handled` says what became of each student that it reached.
pub record Progress : Type 0 where
  pub db : Database
  pub sent_count : ℕ
  pub blocked_count : ℕ
  pub error_count : ℕ
  pub cursor : ℕ
  pub handled : List (ℕ × CopyStatus)

-- One round of the loop over the recipients after a status.
abbrev pub advance : User → CopyStatus → Progress → Progress
advance u sent p = record p {
  sent_count = p.sent_count + 1;
  cursor = u.id;
  handled = (u.id, sent) ∷ p.handled;
}
advance u blocked p = record p {
  db = mark_bot_blocked u.id p.db;
  blocked_count = p.blocked_count + 1;
  cursor = u.id;
  handled = (u.id, blocked) ∷ p.handled;
}
advance u error p = record p {
  error_count = p.error_count + 1;
  cursor = u.id;
  handled = (u.id, error) ∷ p.handled;
}

-- The reply of Telegram to each attempt for each student.
abbrev pub Telegram : Type 0
Telegram = ℕ → ℕ → Reply

abbrev pub copy_broadcast_message : Telegram → User → Option CopyStatus
copy_broadcast_message telegram u = copy_from (telegram u.id) 1 max_send_attempts

-- The loop over the recipients, and whether an exception left it.
unfoldable pub deliver : Telegram → List User → Progress → Progress × Bool
unfolding copy_from
deliver telegram [] p = (p, false)
deliver telegram (u ∷ recipients) p = elim (copy_broadcast_message telegram u) [
  | none ↦ (p, true)
  | some status ↦ deliver telegram recipients (advance u status p)
]

-- How a batch ends: the announcement is finished, there may be more, or an exception left it.
pub data Ending : Type 0 where
  done more crashed : Ending

-- The committed rows, what became of the students reached, and the completion reports.
pub record Batch : Type 0 where
  pub store : Store
  pub handled : List (ℕ × CopyStatus)
  pub ending : Ending
  pub reports : List Broadcast

abbrev pub batch_size : ℕ
batch_size = 25

abbrev pub start_of : Broadcast → Database → Progress
start_of broadcast db = record {
  db = db;
  sent_count = broadcast.sent_count;
  blocked_count = broadcast.blocked_count;
  error_count = broadcast.error_count;
  cursor = broadcast.last_user_id;
  handled = [];
}

-- `record_progress` and the commit, where no exception came; otherwise the session is rolled back.
abbrev pub commit_progress : ℕ → Store → Progress × Bool → Batch
commit_progress broadcast_id w (p, true) = record {
  store = w;
  handled = p.handled;
  ending = crashed;
  reports = [];
}
commit_progress broadcast_id w (p, false) = record {
  store =
      record_progress broadcast_id p.sent_count p.blocked_count p.error_count p.cursor
        (record w { db = p.db });
  handled = p.handled;
  ending = more;
  reports = [];
}

-- `_report_completion`: the row as it was read again, where it names a chat.
abbrev pub report_completion : Option Broadcast → List Broadcast
report_completion none = []
report_completion (some b) = elim b.report_chat_id [ none ↦ [] | some chat ↦ b ∷ [] ]

abbrev pub complete : ℕ → ℕ → Store → Batch
complete broadcast_id now w =
    let (rowcount, w') = mark_completed broadcast_id now w in
    record {
      store = w';
      handled = [];
      ending = done;
      reports = if ltb 0 rowcount then report_completion (get_by_id broadcast_id w') else [];
    }

abbrev pub run_recipients : Telegram → ℕ → ℕ → Store → Broadcast → List User → Batch
run_recipients telegram broadcast_id now w broadcast [] = complete broadcast_id now w
run_recipients telegram broadcast_id now w broadcast (u ∷ recipients) =
    commit_progress broadcast_id w (deliver telegram (u ∷ recipients) (start_of broadcast w.db))

abbrev pub idle : Store → Batch
idle w = record { store = w; handled = []; ending = done; reports = [] }

abbrev pub run_found : Telegram → ℕ → ℕ → Store → Option Broadcast → Batch
run_found telegram broadcast_id now w none = idle w
run_found telegram broadcast_id now w (some broadcast) =
    if is_in_progress broadcast.status
    then run_recipients telegram broadcast_id now w broadcast
        (list_approved_after broadcast.last_user_id batch_size w.db)
    else idle w

-- `_run_one_batch`
unfoldable pub run_one_batch : Telegram → ℕ → ℕ → Store → Batch
run_one_batch telegram broadcast_id now w =
    run_found telegram broadcast_id now w (get_by_id broadcast_id w)

-- What a run leaves, with what became of the students in the order of the batches, last first.
abbrev pub then_run : Batch → (Store → Batch) → Batch
then_run b next = elim b.ending [
  | done ↦ b
  | crashed ↦ b
  | more ↦ let later = next b.store in record later { handled = later.handled ++ b.handled }
]

-- The loop of `run_broadcast`, for at most `fuel` batches.
unfoldable pub run_broadcast : Telegram → ℕ → ℕ → ℕ → Store → Batch
run_broadcast telegram broadcast_id now zero w = record {
  store = w;
  handled = [];
  ending = more;
  reports = [];
}
run_broadcast telegram broadcast_id now (suc fuel) w =
    then_run (run_one_batch telegram broadcast_id now w)
      (run_broadcast telegram broadcast_id now fuel)
