-- ===== src/Bot/TestTaking/Entry.antt =====
-- The entry to a test of app/bot/handlers/test_taking.py, and its router.
use testify.Common.{ℕ, true, false, Option, none, some, Text, if◌then◌else◌, ◌∷◌, []}
use testify.Effects.{
  Result, ok, err, pure, raise, ◌>>=◌, ◌>>◌, not_approved, attempt_already_exists,
}
use testify.Models.{User, Test, Attempt, is_in_progress, is_approved}
use testify.Scoring.{section_scores_from_attempt}
use testify.Attempts.Repository
use testify.Attempts.Service.{AttemptState, start}
use testify.Attempts.Marks.{get_question_marks}
use testify.Exams.Repository.{get_active}
use testify.Bot.Screen.{
  Callback, test_answer, test_nav, test_finish, confirm_start_test, cancel_pretest,
  no_active_test_text, not_approved_text, pretest_cancelled_text, plain,
}
use testify.Bot.Screen.Test.{truthy, render_test_screen}
use testify.Bot.Screen.Result.{render_pretest_screen, render_prior_result_screen}
use testify.Bot.TestTaking.{
  TestState, Container, Telegram, send_rendered, edit_or_answer, acknowledge, try_world, reading,
  read_state, set_fsm, clear_fsm,
}
use testify.Bot.TestTaking.Handlers.{
  group_invite_link, Handler, setting, Send, on_test_answer, on_test_nav, on_finish_request,
  on_finish_confirmed,
}

-- "msg_no_active_test"
abbrev pub msg_no_active_test : Text
msg_no_active_test =
    b'm' ∷ b's' ∷ b'g' ∷ b'_' ∷ b'n' ∷ b'o' ∷ b'_' ∷ b'a' ∷ b'c' ∷ b't' ∷ b'i' ∷ b'v' ∷ b'e' ∷ b'_'
    ∷ b't' ∷ b'e' ∷ b's' ∷ b't' ∷ []

module _ (container : Container) where
  -- The text for no active test: the setting, or the fallback.
  unfoldable pub show_no_active_test : Send container → Handler container
  show_no_active_test send = do
    text ← setting container msg_no_active_test
    send (plain (no_active_test_text (truthy text)))

  -- The prior result of a finished attempt.
  unfoldable pub show_prior : Send container → Attempt → Handler container
  show_prior send attempt = do
    clear_fsm
    link ← setting container group_invite_link
    marks ← reading (get_question_marks attempt.id)
    send (
        render_prior_result_screen container.is_space (section_scores_from_attempt attempt) link
          marks)

  -- The test screen of an open attempt, with the FSM in progress.
  unfoldable pub resume : Send container → ℕ → AttemptState → Handler container
  resume send attempt_id attempt_state = do
    set_fsm TestState.in_progress attempt_id
    send (render_test_screen attempt_state)

  abbrev pub show_prior_found : Send container → Option Attempt → Handler container
  show_prior_found send none = pure tt
  show_prior_found send (some attempt) = show_prior send attempt

  -- `_resume_or_show_prior`
  unfoldable pub resume_or_show_prior : Telegram → ℕ → ℕ → ℕ → Handler container
  unfolding resume show_prior
  resume_or_show_prior telegram attempt_id user_id now = do
    attempt_state ← read_state attempt_id user_id now
    (if is_in_progress attempt_state.status
        then resume (edit_or_answer telegram) attempt_id attempt_state
        else (reading (Repository.get_by_id attempt_id)
            >>= show_prior_found (edit_or_answer telegram)))

  -- The `try` around `start`.
  abbrev pub after_start : Telegram → ℕ → ℕ → Result Attempt → Handler container
  after_start telegram user_id now (ok attempt) = do
    set_fsm TestState.in_progress attempt.id
    attempt_state ← read_state attempt.id user_id now
    edit_or_answer telegram (render_test_screen attempt_state)
  after_start telegram user_id now (err not_approved) =
      edit_or_answer telegram (plain not_approved_text)
  after_start telegram user_id now (err (attempt_already_exists (some existing))) =
      resume_or_show_prior telegram existing user_id now
  after_start telegram user_id now (err e) = raise e

  abbrev pub start_active : Telegram → ℕ → User → (ℕ → ℕ) → Option Test → Handler container
  start_active telegram id user clock none = show_no_active_test (edit_or_answer telegram)
  start_active telegram id user clock (some active_test) = do
    started ← try_world (start container.sched id (clock 0) (clock 1) user active_test)
    after_start telegram user.id (clock 2) started

  -- `id` is the id of the row that may be inserted.
  unfoldable pub on_confirm_start : Telegram → ℕ → User → (ℕ → ℕ) → Handler container
  unfolding show_no_active_test resume_or_show_prior
  on_confirm_start telegram id user clock = do
    acknowledge telegram
    active_test ← reading get_active
    start_active telegram id user clock active_test

  unfoldable pub on_pretest_cancel : Telegram → Handler container
  on_pretest_cancel telegram = do
    acknowledge telegram
    clear_fsm
    edit_or_answer telegram (plain pretest_cancelled_text)

  -- The attempt that `_enter_test_flow` found for the active test, read again.
  abbrev pub enter_existing : Telegram → ℕ → ℕ → Attempt → Handler container
  enter_existing telegram user_id now existing = do
    attempt_state ← read_state existing.id user_id now
    (if is_in_progress attempt_state.status
        then resume (send_rendered telegram) attempt_state.attempt_id attempt_state
        else show_prior (send_rendered telegram) existing)

  abbrev pub enter_for_test : Telegram → ℕ → ℕ → Option Attempt → Handler container
  enter_for_test telegram user_id now none = send_rendered telegram render_pretest_screen
  enter_for_test telegram user_id now (some existing) = enter_existing telegram user_id now existing

  abbrev pub enter_active : Telegram → ℕ → ℕ → Option Test → Handler container
  enter_active telegram user_id now none = show_no_active_test (send_rendered telegram)
  enter_active telegram user_id now (some active_test) = do
    existing ← reading (Repository.get_by_user_and_test user_id active_test.id)
    enter_for_test telegram user_id now existing

  -- The routing by the active test.
  unfoldable pub enter_by_test : Telegram → ℕ → ℕ → Handler container
  unfolding show_no_active_test resume show_prior
  enter_by_test telegram user_id now = do
    active_test ← reading get_active
    enter_active telegram user_id now active_test

  abbrev pub enter_with : Telegram → ℕ → (ℕ → ℕ) → Option Attempt → Handler container
  enter_with telegram user_id clock none = enter_by_test telegram user_id (clock 1)
  enter_with telegram user_id clock (some open_attempt) = do
    attempt_state ← read_state open_attempt.id user_id (clock 0)
    (if is_in_progress attempt_state.status
        then resume (send_rendered telegram) attempt_state.attempt_id attempt_state
        else enter_by_test telegram user_id (clock 1))

  -- `_enter_test_flow`, which `/test` and the button share.
  unfoldable pub enter_test_flow : Telegram → User → (ℕ → ℕ) → Handler container
  unfolding enter_by_test resume
  enter_test_flow telegram user clock =
      if is_approved user.status
      then (reading (Repository.get_in_progress_for_user user.id)
          >>= enter_with telegram user.id clock)
      else send_rendered telegram (plain not_approved_text)

  -- The router: each callback with its handler.
  unfoldable pub on_callback : Telegram → ℕ → User → (ℕ → ℕ) → Callback → Handler container
  unfolding on_test_answer on_test_nav on_finish_request on_finish_confirmed on_confirm_start
      on_pretest_cancel
  on_callback telegram id user clock (test_answer attempt_id question_pos option) =
      on_test_answer container telegram user.id clock attempt_id question_pos option
  on_callback telegram id user clock (test_nav attempt_id target) =
      on_test_nav container telegram user.id clock attempt_id target
  on_callback telegram id user clock (test_finish attempt_id false) =
      on_finish_request container telegram user.id clock attempt_id
  on_callback telegram id user clock (test_finish attempt_id true) =
      on_finish_confirmed container telegram user.id clock attempt_id
  on_callback telegram id user clock confirm_start_test = on_confirm_start telegram id user clock
  on_callback telegram id user clock cancel_pretest = on_pretest_cancel telegram
