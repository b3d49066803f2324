-- ===== src/Bot/TestTaking/Moves.antt =====
-- Moving the cursor of an open attempt and showing the screen.
use testify.Bot.TestTaking.Taps.{get_attempt_for_user-found}
use testify.Common.{
  ℕ, true, some, ◌≡◌, inl, inr, refl, sym, Option-cases, Bool-cases, arith, ==_iff, ◌==◌, find-some,
  find, find-update, leb, ◌&&◌, subst, false, select-update, [], ◌∷◌,
}
use testify.Effects.{ok}
use testify.Models.{Attempt, Database, is_in_progress}
use testify.Attempts.Repository
use testify.Attempts.Repository.{
  has_id, is_open_row, get_by_id, get_by_test_position, upsert, list_by_test, list_by_attempt,
}
use testify.Attempts.Service.{AttemptState, get_attempt_for_user, set_current_position, World}
use testify.Bot.Screen.Test.{render_test_screen}
use testify.Bot.TestTaking.{Container, Telegram, shows}
use testify.Bot.TestTaking.Handlers.{Conversation, move_and_render}
use testify.Bot.TestTaking.Live.{
  IsReachable, IsOpenFor, ShowsTest, open_rows, state_of, get_state-found, edit_or_answer-shows,
}

-- A move writes the cursor of the row.
get_attempt_for_user-moved :
    (attempt_id user_id position : ℕ) (db : Database) (a : Attempt)
    → get_attempt_for_user attempt_id user_id db ≡ some a
    → is_in_progress a.status ≡ true
    → get_attempt_for_user attempt_id user_id
        (Repository.set_current_position attempt_id position db).1
      ≡ some (record a { current_position = position })
unfolding get_attempt_for_user get_by_id Repository.set_current_position
get_attempt_for_user-moved attempt_id user_id position db a found live =
    elim (Option-cases (find (has_id attempt_id) db.attempts)) [
      | inl missing ↦ ground arith
      | inr (b, row) ↦ ground (
        arith,
        find-update (is_open_row attempt_id) (has_id attempt_id)
            (λ x. record x { current_position = position }) db.attempts (λ x. refl),
        find-some (has_id attempt_id) db.attempts b row,
      )
    ]

open_rows-moved :
    (attempt_id user_id position : ℕ) (db : Database) (a : Attempt)
    → a.id ≡ attempt_id
    → is_in_progress a.status ≡ true
    → open_rows user_id db ≡ a ∷ []
    → open_rows user_id (Repository.set_current_position attempt_id position db).1
      ≡ record a { current_position = position } ∷ []
unfolding Repository.set_current_position
open_rows-moved attempt_id user_id position db a same live only = ground (
  arith,
  select-update (λ (x : Attempt). x.user_id == user_id && is_in_progress x.status)
      (is_open_row attempt_id) (λ x. record x { current_position = position }) db.attempts
      (λ x. refl),
  (==_iff a.id attempt_id).1 same,
)

answers-moved :
    (attempt_id position : ℕ) (db : Database)
    → (Repository.set_current_position attempt_id position db).1.answers ≡ db.answers
unfolding Repository.set_current_position
answers-moved attempt_id position db = refl

questions-moved :
    (attempt_id position : ℕ) (db : Database)
    → (Repository.set_current_position attempt_id position db).1.questions ≡ db.questions
unfolding Repository.set_current_position
questions-moved attempt_id position db = refl

set_current_position-moves :
    {Jobs : Type 0} (attempt_id user_id position : ℕ) (a : Attempt) (w : World Jobs)
    → get_attempt_for_user attempt_id user_id w.db ≡ some a
    → leb 1 position && leb position 50 ≡ true
    → set_current_position attempt_id user_id position w
      ≡ (ok tt, record w { db = (Repository.set_current_position attempt_id position w.db).1 })
unfolding set_current_position
set_current_position-moves attempt_id user_id position a w found range = ground arith

module _ (container : Container) (telegram : Telegram) (attempt_id user_id : ℕ)
    (reach : IsReachable telegram) where
  -- the conversation after a move
  abbrev moved : ℕ → Conversation container → Conversation container
  moved position s = record s {
    world = record s.world {
      db = (Repository.set_current_position attempt_id position s.world.db).1;
    };
  }

  move_and_render-moves :
      (now position : ℕ) (a : Attempt) (state : AttemptState) (s : Conversation container)
      → IsOpenFor attempt_id user_id s.world.db a
      → leb 1 position && leb position 50 ≡ true
      → (position == state.current_position) ≡ false
      → let row = record a { current_position = position } in
        let after = state_of attempt_id now (moved position s).world.db row in
        move_and_render container telegram attempt_id user_id now position state s
        ≡ (ok tt, shows (render_test_screen after) (moved position s))
  unfolding move_and_render
  move_and_render-moves now position a state s h range differs =
      let row = record a { current_position = position } in
      let after = state_of attempt_id now (moved position s).world.db row in
      ground (
        arith,
        set_current_position-moves attempt_id user_id position a s.world h.found range,
        get_state-found attempt_id user_id now (moved position s).world.db row
            (get_attempt_for_user-moved attempt_id user_id position s.world.db a h.found h.is_open),
        edit_or_answer-shows telegram (render_test_screen after) (moved position s) reach,
      )

  pub move_and_render-shows :
      (now before position : ℕ) (a : Attempt) (s : Conversation container)
      → IsOpenFor attempt_id user_id s.world.db a
      → leb 1 position && leb position 50 ≡ true
      → let r =
          move_and_render container telegram attempt_id user_id now position
            (state_of attempt_id before s.world.db a)
            s in
        (r.0 ≡ ok tt)
        × (r.1.world.db.answers ≡ s.world.db.answers)
        × (r.1.world.db.questions ≡ s.world.db.questions)
        × IsOpenFor attempt_id user_id r.1.world.db (record a { current_position = position })
        × ShowsTest attempt_id user_id r.1
  unfolding move_and_render
  move_and_render-shows now before position a s h range =
      elim (Bool-cases (position == a.current_position)) [
        | inl same ↦
            let state = state_of attempt_id before s.world.db a in
            rw (same, edit_or_answer-shows telegram (render_test_screen state) s reach)
              (
                refl,
                refl,
                refl,
                subst
                    (λ p.
                      IsOpenFor attempt_id user_id s.world.db (record a { current_position = p }))
                    (sym ((==_iff position a.current_position).0 same)) h,
                (
                  before,
                  state,
                  get_state-found attempt_id user_id before s.world.db a h.found,
                  refl,
                ),
              )
        | inr differs ↦
            let row = record a { current_position = position } in
            let found =
              get_attempt_for_user-moved attempt_id user_id position s.world.db a h.found
                h.is_open in
            let db = (moved position s).world.db in
            let after = state_of attempt_id now db row in
            rw
              (move_and_render-moves now position a (state_of attempt_id before s.world.db a) s h
                range differs)
              (
                refl,
                answers-moved attempt_id position s.world.db,
                questions-moved attempt_id position s.world.db,
                record {
                  found = found;
                  is_open = h.is_open;
                  cursor = range;
                  only =
                      open_rows-moved attempt_id user_id position s.world.db a
                        (get_attempt_for_user-found attempt_id user_id s.world.db a h.found).1
                        h.is_open h.only;
                },
                (now, after, get_state-found attempt_id user_id now db row found, refl),
              )
      ]
