-- ===== src/Bot/TestTaking/Live.antt =====
-- A tap on the screen of an open attempt.

use testify.Common.{
  ℕ, Bool, true, some, ◌≡◌, ◌≢◌, refl, arith, ◌==◌, leb, ◌&&◌, ◌-◌, ◌/◌, select, [], ◌∷◌, List,
}
use testify.Effects.{ok}
use testify.Models.{Attempt, Database, is_in_progress}
use testify.Attempts.Repository.{get_by_id, list_by_test, list_by_attempt}
use testify.Attempts.Service.{AttemptState, get_attempt_for_user, get_state}
use testify.Bot.Screen.{RenderedMessage}
use testify.Bot.Screen.Test.{render_test_screen}
use testify.Bot.TestTaking.{Telegram, Chat, edit_failed, edit_or_answer, shows}

-- Telegram reaches the chat: the tap is acknowledged, its message is there, an edit is at most
-- refused as a bad request and a send works.
pub record IsReachable (telegram : Telegram) : Type 0 where
  pub acknowledged : telegram.acknowledged ≡ true
  pub is_photo : Bool
  pub message : telegram.message_is_photo ≡ some is_photo
  pub edits : (r : RenderedMessage) → telegram.edit r ≢ edit_failed
  pub sends : (r : RenderedMessage) → telegram.send r ≡ true

pub edit_or_answer-shows :
    {Jobs Cache : Type 0} (telegram : Telegram) (r : RenderedMessage) (s : Chat Jobs Cache)
    → IsReachable telegram
    → edit_or_answer telegram r s ≡ (ok tt, shows r s)
unfolding edit_or_answer
edit_or_answer-shows telegram r s h = ground (arith, h.message, h.edits r, h.sends r)

-- The user's open attempts.
abbrev pub open_rows : ℕ → Database → List Attempt
open_rows user_id db = select (λ x. x.user_id == user_id && is_in_progress x.status) db.attempts

-- The attempt is the user's and open, with the cursor on a question; he has no other open one.
pub record IsOpenFor (attempt_id user_id : ℕ) (db : Database) (a : Attempt) : Type 0 where
  pub found : get_attempt_for_user attempt_id user_id db ≡ some a
  pub is_open : is_in_progress a.status ≡ true
  pub cursor : leb 1 a.current_position && leb a.current_position 50 ≡ true
  pub only : open_rows user_id db ≡ a ∷ []

-- The row of an attempt depends on the attempts alone.
pub get_attempt_for_user-attempts :
    (attempt_id user_id : ℕ) (db db' : Database)
    → db'.attempts ≡ db.attempts
    → get_attempt_for_user attempt_id user_id db' ≡ get_attempt_for_user attempt_id user_id db
unfolding get_attempt_for_user get_by_id
get_attempt_for_user-attempts attempt_id user_id db db' same = rw same refl

pub open_rows-attempts :
    (user_id : ℕ) (db db' : Database)
    → db'.attempts ≡ db.attempts
    → open_rows user_id db' ≡ open_rows user_id db
open_rows-attempts user_id db db' same = rw same refl

-- What `get_state` makes of the row.
abbrev pub state_of : ℕ → ℕ → Database → Attempt → AttemptState
state_of attempt_id now db a = record {
  attempt_id = a.id;
  user_id = a.user_id;
  test_id = a.test_id;
  status = a.status;
  current_position = a.current_position;
  started_at = a.started_at;
  expires_at = a.expires_at;
  time_remaining_seconds = (a.expires_at - now) / 1000000;
  questions = list_by_test a.test_id db;
  answers = list_by_attempt attempt_id db;
}

pub get_state-found :
    (attempt_id user_id now : ℕ) (db : Database) (a : Attempt)
    → get_attempt_for_user attempt_id user_id db ≡ some a
    → get_state attempt_id user_id now db ≡ ok (state_of attempt_id now db a)
unfolding get_state
get_state-found attempt_id user_id now db a found = rw (get_state, found) refl

-- The screen is the test screen of the attempt as the database has it.
abbrev pub ShowsTest : {Jobs Cache : Type 0} → ℕ → ℕ → Chat Jobs Cache → Type 0
ShowsTest attempt_id user_id s =
    (now : ℕ) × (state : AttemptState) × (get_state attempt_id user_id now s.world.db ≡ ok state)
    × (s.screen ≡ some (render_test_screen state))
