-- ===== src/Bot/TestTaking/Walk.antt =====
-- A student who taps the buttons that the screen shows, and comes back.
use testify.Bot.TestTaking.Resume.{enter_test_flow-resumes}
use testify.Bot.TestTaking.Keyboard.{HasButton}
use testify.Bot.TestTaking.Entry.{on_callback, enter_test_flow}
use testify.Models.{User, is_approved}
use testify.Bot.TestTaking.Live.{state_of, get_state-found, IsReachable}
use testify.Bot.TestTaking.Handlers.{Conversation}
use testify.Effects.{Result, ok, outcome, after}
use testify.Bot.TestTaking.{Container, Telegram, Fsm}
use testify.Common.{ℕ, true, ◌≡◌, some, inl, subst, sym, refl, ◌≢◌}
use testify.Bot.Screen.{Callback, test_finish, RenderedMessage}
use testify.Bot.TestTaking.UnderWay.{IsUnderWay, tap_shown}

module _ (container : Container) (attempt_id : ℕ) (user : User) where
  -- The student taps any buttons of the screens that follow from each other, the confirmation of
  -- the end excepted, or enters the test anew, and the FSM data may be lost at any time; Telegram
  -- reaches the chat each time.
  pub data Walk (s : Conversation container) : Conversation container → Type 0 where
    stop : Walk s s
    tap :
        {s' : Conversation container} (telegram : Telegram) (id : ℕ) (clock : ℕ → ℕ) (c : Callback)
        (screen : RenderedMessage)
        → Walk s s'
        → IsReachable telegram
        → s'.screen ≡ some screen
        → HasButton c screen
        → c ≢ test_finish attempt_id true
        → Walk s (on_callback container telegram id user clock c s').1
    enter :
        {s' : Conversation container} (telegram : Telegram) (clock : ℕ → ℕ)
        → Walk s s'
        → IsReachable telegram
        → is_approved user.status ≡ true
        → Walk s (enter_test_flow container telegram user clock s').1
    flush : {s' : Conversation container} (fsm : Fsm) → Walk s s' → Walk s (record s' { fsm = fsm })

  enter-IsUnderWay :
      (telegram : Telegram) (clock : ℕ → ℕ) (s : Conversation container)
      → IsUnderWay container attempt_id user.id s
      → IsReachable telegram
      → is_approved user.status ≡ true
      → IsUnderWay container attempt_id user.id (enter_test_flow container telegram user clock s).1
  enter-IsUnderWay telegram clock s h reach approved =
      subst
        (λ (r : Result Unit × Conversation container). IsUnderWay container attempt_id user.id r.1)
        (sym (
          enter_test_flow-resumes container telegram attempt_id user clock h.attempt s reach
            approved h.is_live))
        (record {
          attempt = h.attempt;
          is_live = h.is_live;
          has_all = h.has_all;
          shown = inl (
            clock 0,
            state_of attempt_id (clock 0) s.world.db h.attempt,
            get_state-found attempt_id user.id (clock 0) s.world.db h.attempt h.is_live.found,
            refl,
          );
        })

  IsUnderWay-Walk :
      (s s' : Conversation container)
      → IsUnderWay container attempt_id user.id s
      → Walk s s'
      → IsUnderWay container attempt_id user.id s'
  IsUnderWay-Walk s s' h stop = h
  IsUnderWay-Walk s s'' h (tap {s'} telegram id clock c screen before reach at button unconfirmed) =
      (tap_shown container attempt_id user telegram id clock s' c screen
        (IsUnderWay-Walk s s' h before) reach at button unconfirmed).1
  IsUnderWay-Walk s s'' h (enter {s'} telegram clock before reach approved) =
      enter-IsUnderWay telegram clock s' (IsUnderWay-Walk s s' h before) reach approved
  IsUnderWay-Walk s s'' h (flush {s'} fsm before) =
      let h' = IsUnderWay-Walk s s' h before in
      record { attempt = h'.attempt; is_live = h'.is_live; has_all = h'.has_all; shown = h'.shown }

  -- From the screen of a user's only open attempt, whose test has a question at each of its 50
  -- positions, after every walk over the buttons shown, the confirmation of the end excepted, with
  -- entries by /test of an approved user and losses of the FSM data anywhere in it, a tap on another
  -- such button returns, and leaves the attempt open, its cursor on a question, and on the screen
  -- the test as the database has it or the dialog about its end. Telegram reaches the chat.
  pub Walk-IsUnderWay :
      (s s' : Conversation container) (telegram : Telegram) (id : ℕ) (clock : ℕ → ℕ) (c : Callback)
      (screen : RenderedMessage)
      → IsUnderWay container attempt_id user.id s
      → Walk s s'
      → IsReachable telegram
      → s'.screen ≡ some screen
      → HasButton c screen
      → c ≢ test_finish attempt_id true
      → (outcome (on_callback container telegram id user clock c) s' ≡ ok tt)
        × IsUnderWay container attempt_id user.id
            (after (on_callback container telegram id user clock c) s')
  Walk-IsUnderWay s s' telegram id clock c screen h walk reach at button unconfirmed =
      tap_shown container attempt_id user telegram id clock s' c screen
        (IsUnderWay-Walk s s' h walk) reach at button unconfirmed
