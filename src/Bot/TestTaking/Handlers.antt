-- ===== src/Bot/TestTaking/Handlers.antt =====
-- The taps in a test of app/bot/handlers/test_taking.py.
use testify.Common.{ℕ, Option, none, some, Text, ◌==◌, leb, ◌&&◌, if◌then◌else◌, ◌∷◌, []}
use testify.Effects.{ok, Action, pure, ◌>>=◌, ◌>>◌}
use testify.Models.{Attempt, is_in_progress}
use testify.Scoring.{section_scores_from_attempt}
use testify.Attempts.Service.{
  AttemptState, user_request, get_attempt_for_user, submit_answer, set_current_position, finish,
}
use testify.Attempts.Marks.{get_question_marks}
use testify.Settings.{Redis, Store}
use testify.Settings
use testify.Bot.Screen.{RenderedMessage}
use testify.Bot.Screen.Test.{render_test_screen}
use testify.Bot.Screen.Result.{render_finish_confirmation, render_result_screen}
use testify.Bot.TestTaking.{
  confirming_finish, Chat, Container, Telegram, pick_next_position, answered_count, edit_or_answer,
  acknowledge, on_world, reading, read_state, set_fsm, clear_fsm,
}

-- "group_invite_link"
abbrev pub group_invite_link : Text
group_invite_link =
    b'g' ∷ b'r' ∷ b'o' ∷ b'u' ∷ b'p' ∷ b'_' ∷ b'i' ∷ b'n' ∷ b'v' ∷ b'i' ∷ b't' ∷ b'e' ∷ b'_' ∷ b'l'
    ∷ b'i' ∷ b'n' ∷ b'k' ∷ []

module _ (container : Container) where
  abbrev pub Conversation : Type 0
  Conversation = Chat container.sched.Jobs container.redis.State

  abbrev pub Handler : Type 0
  Handler = Action Conversation Unit

  -- `services.settings.get`
  abbrev pub setting : Text → Action Conversation (Option Text)
  setting key s =
      let (value, store) = Settings.get container.redis key s.settings in
      (ok value, record s { settings = store })

  -- The `send` of a screen: an edit or a fresh message.
  abbrev pub Send : Type 0
  Send = RenderedMessage → Handler

  -- The row that `_show_finished` reads.
  abbrev pub show_result : Send → Option Attempt → Handler
  show_result send none = pure tt
  show_result send (some attempt) = do
    clear_fsm
    link ← setting group_invite_link
    marks ← reading (get_question_marks attempt.id)
    send (
        render_result_screen container.is_space attempt (section_scores_from_attempt attempt) link
          marks)

  -- `_show_finished`
  unfoldable pub show_finished : Telegram → ℕ → AttemptState → Handler
  show_finished telegram user_id attempt_state = do
    attempt ← reading (get_attempt_for_user attempt_state.attempt_id user_id)
    show_result (edit_or_answer telegram) attempt

  -- ---------- taps in a test ----------

  -- The end of a tap: the screen of the attempt, after its cursor moved where it has to.
  unfoldable pub move_and_render : Telegram → ℕ → ℕ → ℕ → ℕ → AttemptState → Handler
  move_and_render telegram attempt_id user_id now position attempt_state =
      if position == attempt_state.current_position
      then edit_or_answer telegram (render_test_screen attempt_state)
      else do
        on_world (set_current_position attempt_id user_id position)
        moved ← read_state attempt_id user_id now
        edit_or_answer telegram (render_test_screen moved)

  unfoldable pub on_test_answer : Telegram → ℕ → (ℕ → ℕ) → ℕ → ℕ → Text → Handler
  unfolding show_finished move_and_render
  on_test_answer telegram user_id clock attempt_id question_pos option = do
    acknowledge telegram
    on_world (submit_answer container.strip_upper attempt_id user_id question_pos option)
    attempt_state ← read_state attempt_id user_id (clock 0)
    (if is_in_progress attempt_state.status
        then move_and_render telegram attempt_id user_id (clock 1)
            (pick_next_position attempt_state question_pos) attempt_state
        else show_finished telegram user_id attempt_state)

  unfoldable pub on_test_nav : Telegram → ℕ → (ℕ → ℕ) → ℕ → ℕ → Handler
  unfolding show_finished move_and_render
  on_test_nav telegram user_id clock attempt_id target = do
    acknowledge telegram
    attempt_state ← read_state attempt_id user_id (clock 0)
    (if is_in_progress attempt_state.status
        then (if leb 1 target && leb target 50
            then move_and_render telegram attempt_id user_id (clock 1) target attempt_state
            else pure tt)
        else show_finished telegram user_id attempt_state)

  unfoldable pub on_finish_request : Telegram → ℕ → (ℕ → ℕ) → ℕ → Handler
  unfolding show_finished
  on_finish_request telegram user_id clock attempt_id = do
    acknowledge telegram
    attempt_state ← read_state attempt_id user_id (clock 0)
    (if is_in_progress attempt_state.status
        then (set_fsm confirming_finish attempt_id
            >> edit_or_answer telegram
                (render_finish_confirmation attempt_id (answered_count attempt_state.answers)))
        else show_finished telegram user_id attempt_state)

  unfoldable pub on_finish_confirmed : Telegram → ℕ → (ℕ → ℕ) → ℕ → Handler
  on_finish_confirmed telegram user_id clock attempt_id = do
    acknowledge telegram
    read_state attempt_id user_id (clock 0)
    result ← on_world (finish container.sched attempt_id user_request (clock 1))
    clear_fsm
    link ← setting group_invite_link
    marks ← reading (get_question_marks attempt_id)
    edit_or_answer telegram
        (render_result_screen container.is_space result.attempt result.scores link marks)
