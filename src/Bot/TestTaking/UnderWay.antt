-- ===== src/Bot/TestTaking/UnderWay.antt =====
-- A tap on a button that the screen of an open attempt shows.

use testify.Bot.TestTaking.Keyboard.{
  IsTestTap, answer_tap, nav_tap, finish_tap, HasButton, dialog-IsFinish, unconfirmed_finish,
  test_screen-IsTestTap,
}
use testify.Bot.TestTaking.Entry.{on_callback}
use testify.Models.{User, Database, Attempt, Answer}
use testify.Bot.Screen.Result.{render_finish_confirmation}
use testify.Attempts.Service.{get_attempt_for_user, AttemptState, get_state}
use testify.Bot.TestTaking.Taps.{get_attempt_for_user-found}
use testify.Bot.TestTaking.Live.{IsOpenFor, state_of, get_state-found, ShowsTest, IsReachable}
use testify.Bot.TestTaking.Handlers.{Conversation}
use testify.Effects.{Result, ok}
use testify.Attempts.Repository.{get_by_test_position, upsert}
use testify.Bot.TestTaking.{Container, Telegram, answered_count}
use testify.Common.{ℕ, true, ◌≡◌, List, some, inl, ◌⊎◌, subst, ap, ◌∙◌, sym, inr, refl, ◌≢◌}
use testify.Bot.Screen.{Callback, test_finish, RenderedMessage}
use testify.Bot.Screen.Test.{render_test_screen}
use testify.Bot.TestTaking.Buttons.{
  in_range, HasAll, IsLiveAt, on_test_nav-IsLiveAt, on_test_answer-IsLiveAt,
  on_finish_request-shows, answer_of, upsert-questions,
}

-- The user's attempt is open, its cursor is on a question, and the screen is the test screen of the
-- attempt as the database has it, or the dialog about its end.
pub record IsUnderWay (container : Container) (attempt_id user_id : ℕ) (s : Conversation container)
    : Type 0 where
  pub attempt : Attempt
  pub is_live : IsOpenFor attempt_id user_id s.world.db attempt
  pub has_all : HasAll attempt.test_id s.world.db
  pub shown :
      ShowsTest attempt_id user_id s
      ⊎ ((n : ℕ) × (s.screen ≡ some (render_finish_confirmation attempt_id n)))

HasAll-questions :
    (test_id : ℕ) (db db' : Database)
    → db'.questions ≡ db.questions
    → HasAll test_id db
    → HasAll test_id db'
unfolding get_by_test_position
HasAll-questions test_id db db' same h pos range = rw same (h pos range)

IsLiveAt-IsUnderWay :
    (container : Container) (attempt_id user_id : ℕ) (a : Attempt) (position : ℕ) (db : Database)
    (answers : List Answer) (r : Result Unit × Conversation container)
    → HasAll a.test_id db
    → IsLiveAt container attempt_id user_id a position answers db.questions r
    → (r.0 ≡ ok tt) × IsUnderWay container attempt_id user_id r.1
IsLiveAt-IsUnderWay container attempt_id user_id a position db answers r all l = (
  l.returned,
  record {
    attempt = record a { current_position = position };
    is_live = l.is_live;
    has_all = HasAll-questions a.test_id db r.1.world.db l.same_questions all;
    shown = inl l.shown;
  },
)

-- What is shown of an open attempt is its own.
shown_state :
    (attempt_id user_id now : ℕ) (db : Database) (a : Attempt) (state : AttemptState)
    → get_attempt_for_user attempt_id user_id db ≡ some a
    → get_state attempt_id user_id now db ≡ ok state
    → (state.attempt_id ≡ attempt_id) × (state.current_position ≡ a.current_position)
shown_state attempt_id user_id now db a state found read =
    let same : state ≡ state_of attempt_id now db a =
      cc (read, get_state-found attempt_id user_id now db a found) in
    let (row, id) = get_attempt_for_user-found attempt_id user_id db a found in
    (
      ap (λ (x : AttemptState). x.attempt_id) same ∙ id,
      ap (λ (x : AttemptState). x.current_position) same,
    )

module _ (container : Container) (attempt_id : ℕ) (user : User) where
  -- a tap, with what Telegram answers, the id of a new row and the clock
  abbrev tapped :
      Telegram
      → ℕ
      → (ℕ → ℕ)
      → Callback
      → Conversation container
      → Result Unit × Conversation container
  tapped telegram id clock c s = on_callback container telegram id user clock c s

  tap-IsTestTap :
      (telegram : Telegram) (id : ℕ) (clock : ℕ → ℕ) (s : Conversation container)
      (h : IsUnderWay container attempt_id user.id s) (c : Callback)
      → IsReachable telegram
      → IsTestTap attempt_id h.attempt.current_position c
      → let r = tapped telegram id clock c s in
        (r.0 ≡ ok tt) × IsUnderWay container attempt_id user.id r.1
  unfolding on_callback
  tap-IsTestTap telegram id clock s h c reach (answer_tap option) =
      let current = h.attempt.current_position in
      let (q, at) = h.has_all current h.is_live.cursor in
      let db = upsert (answer_of container.strip_upper attempt_id option q) s.world.db in
      IsLiveAt-IsUnderWay container attempt_id user.id h.attempt _ db _ _
        (HasAll-questions h.attempt.test_id s.world.db db
          (upsert-questions (answer_of container.strip_upper attempt_id option q) s.world.db)
          h.has_all)
        (on_test_answer-IsLiveAt container telegram attempt_id user.id clock reach h.attempt s
          h.is_live current option q h.is_live.cursor at)
  tap-IsTestTap telegram id clock s h c reach (nav_tap target range) =
      IsLiveAt-IsUnderWay container attempt_id user.id h.attempt target s.world.db _ _ h.has_all (
        on_test_nav-IsLiveAt container telegram attempt_id user.id clock reach h.attempt s h.is_live
          target range)
  tap-IsTestTap telegram id clock s h c reach finish_tap =
      let n = answered_count (state_of attempt_id (clock 0) s.world.db h.attempt).answers in
      let shown =
        on_finish_request-shows container telegram attempt_id user.id clock reach h.attempt s
          h.is_live in
      (
        ap (λ (r : Result Unit × Conversation container). r.0) shown,
        subst
            (λ (r : Result Unit × Conversation container).
              IsUnderWay container attempt_id user.id r.1)
            (sym shown)
            (record {
              attempt = h.attempt;
              is_live = h.is_live;
              has_all = h.has_all;
              shown = inr (n, refl);
            }),
      )

  -- The confirmation of the end aside, what the screen's buttons send is a tap of the test or, from
  -- the dialog, the question whether to end it.
  pub tap_shown :
      (telegram : Telegram) (id : ℕ) (clock : ℕ → ℕ) (s : Conversation container) (c : Callback)
      (screen : RenderedMessage)
      → IsUnderWay container attempt_id user.id s
      → IsReachable telegram
      → s.screen ≡ some screen
      → HasButton c screen
      → c ≢ test_finish attempt_id true
      → let r = tapped telegram id clock c s in
        (r.0 ≡ ok tt) × IsUnderWay container attempt_id user.id r.1
  tap_shown telegram id clock s c screen h reach at button unconfirmed = elim h.shown [
    | inl (now, state, read, test_shown) ↦
        let (same_id, same_cursor) =
          shown_state attempt_id user.id now s.world.db h.attempt state h.is_live.found read in
        let is_test : screen ≡ render_test_screen state = cc (at, test_shown) in
        let tap =
          test_screen-IsTestTap state c
            (subst (λ cur. in_range cur ≡ true) (sym same_cursor) h.is_live.cursor)
            (subst (λ x. HasButton c x) is_test button) in
        tap-IsTestTap telegram id clock s h c reach (
          subst (λ i. IsTestTap i h.attempt.current_position c) same_id
            (subst (λ cur. IsTestTap state.attempt_id cur c) same_cursor tap))
    | inr (n, dialog_shown) ↦
        let is_dialog : screen ≡ render_finish_confirmation attempt_id n = cc (at, dialog_shown) in
        let e =
          unconfirmed_finish attempt_id c unconfirmed
            (dialog-IsFinish attempt_id n c (subst (λ x. HasButton c x) is_dialog button)) in
        tap-IsTestTap telegram id clock s h c reach
          (subst (λ x. IsTestTap attempt_id h.attempt.current_position x) (sym e) finish_tap)
  ]
