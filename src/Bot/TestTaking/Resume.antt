-- ===== src/Bot/TestTaking/Resume.antt =====
-- `/test` while an attempt is open.
use testify.Common.{ℕ, true, some, ◌≡◌, arith, refl}
use testify.Effects.{ok}
use testify.Models.{User, Attempt, is_approved}
use testify.Attempts.Repository.{get_in_progress_for_user, newest}
use testify.Bot.Screen.Test.{render_test_screen}
use testify.Bot.TestTaking.{Container, Telegram, shows, Database, TestState}
use testify.Bot.TestTaking.Handlers.{Conversation}
use testify.Bot.TestTaking.Entry.{enter_test_flow, resume}
use testify.Bot.TestTaking.Taps.{get_attempt_for_user-found}
use testify.Bot.TestTaking.Live.{IsReachable, IsOpenFor, state_of, get_state-found}

get_in_progress_for_user-only :
    (attempt_id user_id : ℕ) (db : Database) (a : Attempt)
    → IsOpenFor attempt_id user_id db a
    → get_in_progress_for_user user_id db ≡ some a
unfolding get_in_progress_for_user newest
get_in_progress_for_user-only attempt_id user_id db a h = rw h.only refl

-- The entry resumes the open attempt, whatever the FSM data say.
pub enter_test_flow-resumes :
    (container : Container) (telegram : Telegram) (attempt_id : ℕ) (user : User) (clock : ℕ → ℕ)
    (a : Attempt) (s : Conversation container)
    → IsReachable telegram
    → is_approved user.status ≡ true
    → IsOpenFor attempt_id user.id s.world.db a
    → enter_test_flow container telegram user clock s ≡ (
      ok tt,
      shows (render_test_screen (state_of attempt_id (clock 0) s.world.db a)) (record s {
        fsm = record { state = some TestState.in_progress; attempt_id = some attempt_id };
      }),
    )
unfolding enter_test_flow resume
enter_test_flow-resumes container telegram attempt_id user clock a s reach approved h =
    let (row, same) = get_attempt_for_user-found attempt_id user.id s.world.db a h.found in
    ground (
      arith,
      same,
      get_in_progress_for_user-only attempt_id user.id s.world.db a h,
      get_state-found attempt_id user.id (clock 0) s.world.db a h.found,
      h.is_open,
      reach.sends (render_test_screen (state_of attempt_id (clock 0) s.world.db a)),
    )
