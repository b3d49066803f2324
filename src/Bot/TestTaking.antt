-- ===== src/Bot/TestTaking.antt =====
-- app/bot/handlers/test_taking.py. A handler is an action on what it can change: the database with
-- the job store, the settings with their cache, the FSM data of the user, and what the message
-- shows. A clock reading is an argument, in the order in which the handler reads it.
pub mod Handlers
pub mod Entry
pub mod Next
pub mod Taps
pub mod Live
pub mod Moves
pub mod Buttons
pub mod Keyboard
pub mod Resume
pub mod UnderWay
pub mod Walk
use testify.Common.{
  ℕ, zero, suc, Bool, true, false, Option, none, some, List, [], ◌∷◌, Text, ◌==◌, ◌+◌, ◌-◌, ltb,
  leb, ◌&&◌, not, if◌then◌else◌, is_some, find,
}
use testify.Effects.{
  Error, Result, ok, err, Action, pure, raise, gets, modify, raise_if, ◌>>=◌, ◌>>◌, not_approved,
  attempt_already_exists, telegram_error,
}
use testify.Models.{User, Test, Answer, Attempt, Database, is_in_progress, is_approved}
use testify.Scoring.{section_scores_from_attempt}
use testify.Jobs.Scheduler.{Scheduler}
use testify.Attempts.Repository
use testify.Attempts.Service.{
  World, AttemptState, user_request, get_attempt_for_user, get_state, submit_answer,
  set_current_position, start, finish,
}
use testify.Attempts.Marks.{get_question_marks}
use testify.Exams.Repository.{get_active}
use testify.Settings.{Redis, Store}
use testify.Settings
use testify.Bot.Screen.{
  Callback, test_answer, test_nav, test_finish, confirm_start_test, cancel_pretest,
  no_active_test_text, not_approved_text, pretest_cancelled_text, RenderedMessage, plain,
}
use testify.Bot.Screen.Test.{contains, range_from, answered_positions, truthy, render_test_screen}
use testify.Bot.Screen.Result.{
  render_pretest_screen, render_finish_confirmation, render_result_screen,
  render_prior_result_screen,
}

-- app/bot/states/test_taking.py
pub data TestState : Type 0 where
  in_progress confirming_finish : TestState

-- The state and the data that the handlers keep in the FSM storage.
pub record Fsm : Type 0 where
  pub state : Option TestState
  pub attempt_id : Option ℕ

pub record Chat (Jobs Cache : Type 0) : Type 0 where
  pub world : World Jobs
  pub settings : Store Cache
  pub fsm : Fsm
  pub screen : Option RenderedMessage

-- What the handlers get from the outside: APScheduler, Redis, `str.isspace` and the strip and upper
-- case of a choice.
pub record Container : Type 1 where
  pub sched : Scheduler
  pub redis : Redis
  pub is_space : ℕ → Bool
  pub strip_upper : Text → Text

-- What Telegram says to an edit: `not_modified` and `bad_request` are a `TelegramBadRequest`.
pub data EditReply : Type 0 where
  edited not_modified bad_request edit_failed : EditReply

-- Telegram during one update: whether `callback.answer()` returns, the message of the callback with
-- `bool(message.photo)`, and its replies to an edit and to a send.
pub record Telegram : Type 0 where
  pub acknowledged : Bool
  pub message_is_photo : Option Bool
  pub edit : RenderedMessage → EditReply
  pub send : RenderedMessage → Bool

-- ---------- the next question ----------

-- The first of the positions that is not answered.
unfoldable pub first_unanswered : List ℕ → List ℕ → Option ℕ
unfolding contains
first_unanswered answered [] = none
first_unanswered answered (pos ∷ positions) =
    if contains answered pos then first_unanswered answered positions else some pos

abbrev pub or_else : Option ℕ → Option ℕ → Option ℕ
or_else (some pos) other = some pos
or_else none other = other

abbrev pub or_stay : ℕ → Option ℕ → ℕ
or_stay current (some pos) = pos
or_stay current none = current

-- The two loops of `_pick_next_position`.
unfoldable pub next_unanswered : List ℕ → ℕ → Option ℕ
unfolding first_unanswered range_from
next_unanswered answered just_answered_pos =
    or_else
      (first_unanswered answered (range_from (just_answered_pos + 1) (50 - just_answered_pos)))
      (first_unanswered answered (range_from 1 (just_answered_pos - 1)))

unfoldable pub pick_next_position : AttemptState → ℕ → ℕ
unfolding next_unanswered answered_positions
pick_next_position state just_answered_pos =
    or_stay state.current_position
      (next_unanswered (just_answered_pos ∷ answered_positions state) just_answered_pos)

-- `len(answers_by_question_id)`: the different questions that have an answer.
unfoldable pub answered_count : List Answer → ℕ
answered_count [] = 0
answered_count (a ∷ answers) =
    let rest = answered_count answers in
    if is_some (find (λ (b : Answer). b.question_id == a.question_id) answers)
    then rest
    else suc rest

-- ---------- sending ----------

module _ {Jobs Cache : Type 0} where
  abbrev pub shows : RenderedMessage → Chat Jobs Cache → Chat Jobs Cache
  shows rendered s = record s { screen = some rendered }

  -- `_send_rendered`, and `message.answer`
  abbrev pub send_rendered : Telegram → RenderedMessage → Action (Chat Jobs Cache) Unit
  send_rendered telegram rendered s =
      if telegram.send rendered then (ok tt, shows rendered s) else (err telegram_error, s)

  abbrev pub edit_in_place : Telegram → RenderedMessage → EditReply → Action (Chat Jobs Cache) Unit
  edit_in_place telegram rendered edited s = (ok tt, shows rendered s)
  edit_in_place telegram rendered not_modified s = (ok tt, shows rendered s)
  edit_in_place telegram rendered bad_request s = send_rendered telegram rendered s
  edit_in_place telegram rendered edit_failed s = (err telegram_error, s)

  abbrev pub edit_message : Telegram → RenderedMessage → Option Bool → Action (Chat Jobs Cache) Unit
  edit_message telegram rendered none s = (ok tt, s)
  edit_message telegram rendered (some true) s =
      if is_some rendered.photo_file_id
      then edit_in_place telegram rendered (telegram.edit rendered) s
      else send_rendered telegram rendered s
  edit_message telegram rendered (some false) s =
      if is_some rendered.photo_file_id
      then send_rendered telegram rendered s
      else edit_in_place telegram rendered (telegram.edit rendered) s

  -- `_edit_or_answer`; the deletion of the old message is suppressed where it fails.
  unfoldable pub edit_or_answer : Telegram → RenderedMessage → Action (Chat Jobs Cache) Unit
  edit_or_answer telegram rendered = edit_message telegram rendered telegram.message_is_photo

  -- `callback.answer()`
  abbrev pub acknowledge : Telegram → Action (Chat Jobs Cache) Unit
  acknowledge telegram = raise_if (not telegram.acknowledged) telegram_error

  -- A call of the attempt service.
  abbrev pub on_world : {A : Type 0} → Action (World Jobs) A → Action (Chat Jobs Cache) A
  on_world call s = let (r, w) = call s.world in (r, record s { world = w })

  -- The same under a `try`, which hands the exception on as a value.
  abbrev pub try_world : {A : Type 0} → Action (World Jobs) A → Action (Chat Jobs Cache) (Result A)
  try_world call s = let (r, w) = call s.world in (ok r, record s { world = w })

  abbrev pub reading : {A : Type 0} → (Database → A) → Action (Chat Jobs Cache) A
  reading f s = (ok (f s.world.db), s)

  abbrev pub read_state : ℕ → ℕ → ℕ → Action (Chat Jobs Cache) AttemptState
  read_state attempt_id user_id now s = (get_state attempt_id user_id now s.world.db, s)

  -- `state.set_state(…)` with `state.update_data(attempt_id=…)`, and `state.clear()`
  abbrev pub set_fsm : TestState → ℕ → Action (Chat Jobs Cache) Unit
  set_fsm state attempt_id =
      modify (λ s. record s { fsm = record { state = some state; attempt_id = some attempt_id } })

  abbrev pub clear_fsm : Action (Chat Jobs Cache) Unit
  clear_fsm = modify (λ s. record s { fsm = record { state = none; attempt_id = none } })
