-- ===== src/Bot/TestTaking/Buttons.antt =====
-- What each tap does on an open attempt whose test has all its questions.
use testify.Bot.TestTaking.Moves.{move_and_render-shows}
use testify.Common.{ℕ, Bool, true, some, ◌≡◌, ◌∙◌, Text, arith, leb, ◌&&◌, List, text_eq, ◌∷◌}
use testify.Effects.{Result, ok}
use testify.Models.{Attempt, Answer, Question, Database}
use testify.Attempts.Repository.{get_by_test_position, upsert}
use testify.Attempts.Service.{submit_answer, submit_to, World}
use testify.Bot.Screen.Result.{render_finish_confirmation}
use testify.Bot.TestTaking.{
  Container, Telegram, pick_next_position, answered_count, shows, confirming_finish,
  answered_positions,
}
use testify.Bot.TestTaking.Handlers.{
  Conversation, move_and_render, on_test_answer, on_test_nav, on_finish_request,
}
use testify.Bot.TestTaking.Next.{IsNext, later, earlier, stay, pick_next_position-IsNext}
use testify.Bot.TestTaking.Live.{
  IsReachable, IsOpenFor, ShowsTest, state_of, get_state-found, edit_or_answer-shows,
  get_attempt_for_user-attempts, open_rows-attempts,
}

-- A test with a question at each of its positions.
abbrev pub HasAll : ℕ → Database → Type 0
HasAll test_id db =
    (pos : ℕ)
    → leb 1 pos && leb pos 50 ≡ true
    → (q : Question) × (get_by_test_position test_id pos db ≡ some q)

-- The row that an answer is stored as.
abbrev pub answer_of : (Text → Text) → ℕ → Text → Question → Answer
answer_of strip_upper attempt_id option q = record {
  attempt_id = attempt_id;
  question_id = q.id;
  selected_option = strip_upper option;
  is_correct = text_eq (strip_upper option) q.correct_option;
}

upsert-attempts : (row : Answer) (db : Database) → (upsert row db).attempts ≡ db.attempts
unfolding upsert
upsert-attempts row db = ground arith

pub upsert-questions : (row : Answer) (db : Database) → (upsert row db).questions ≡ db.questions
unfolding upsert
upsert-questions row db = ground arith

submit_answer-stores :
    {Jobs : Type 0} (strip_upper : Text → Text) (attempt_id user_id position : ℕ) (option : Text)
    (a : Attempt) (q : Question) (w : World Jobs)
    → IsOpenFor attempt_id user_id w.db a
    → get_by_test_position a.test_id position w.db ≡ some q
    → submit_answer strip_upper attempt_id user_id position option w
      ≡ (ok tt, record w { db = upsert (answer_of strip_upper attempt_id option q) w.db })
unfolding submit_answer submit_to
submit_answer-stores strip_upper attempt_id user_id position option a q w h at =
    ground (arith, h.found, h.is_open)

abbrev pub in_range : ℕ → Bool
in_range pos = leb 1 pos && leb pos 50

-- The next position is a question's where the two it starts from are.
IsNext-in_range :
    (answered : List ℕ) (just current pos : ℕ)
    → in_range just ≡ true
    → in_range current ≡ true
    → IsNext answered just current pos
    → in_range pos ≡ true
IsNext-in_range answered just current pos hj hc (later p above below free _) = ground arith
IsNext-in_range answered just current pos hj hc (earlier p above below free _ _) = ground arith
IsNext-in_range answered just current pos hj hc (stay _ _) = hc

-- The attempt is still open, with the cursor at `position`, and the test screen shows it.
pub record IsLiveAt (container : Container) (attempt_id user_id : ℕ) (a : Attempt) (position : ℕ)
    (answers : List Answer) (questions : List Question) (r : Result Unit × Conversation container)
    : Type 0 where
  pub returned : r.0 ≡ ok tt
  pub stored : r.1.world.db.answers ≡ answers
  pub same_questions : r.1.world.db.questions ≡ questions
  pub is_live : IsOpenFor attempt_id user_id r.1.world.db (record a { current_position = position })
  pub shown : ShowsTest attempt_id user_id r.1

-- The end of a tap, when the tap ran it.
move_and_render-IsLiveAt :
    (container : Container) (telegram : Telegram) (attempt_id user_id now before position : ℕ)
    (a : Attempt) (s' : Conversation container) (r : Result Unit × Conversation container)
    → IsReachable telegram
    → IsOpenFor attempt_id user_id s'.world.db a
    → in_range position ≡ true
    → r
      ≡ move_and_render container telegram attempt_id user_id now position
          (state_of attempt_id before s'.world.db a)
          s'
    → IsLiveAt container attempt_id user_id a position s'.world.db.answers s'.world.db.questions r
move_and_render-IsLiveAt container telegram attempt_id user_id now before position a s' r reach h
      range ran =
    let (returned, stored, same_questions, is_live, shown) =
      move_and_render-shows container telegram attempt_id user_id reach now before position a s' h
        range in
    rw ran (record {
      returned = returned;
      stored = stored;
      same_questions = same_questions;
      is_live = is_live;
      shown = shown;
    })

module _ (container : Container) (telegram : Telegram) (attempt_id user_id : ℕ) (clock : ℕ → ℕ)
    (reach : IsReachable telegram) (a : Attempt) (s : Conversation container)
    (h : IsOpenFor attempt_id user_id s.world.db a) where
  pub on_test_nav-IsLiveAt :
      (target : ℕ)
      → in_range target ≡ true
      → IsLiveAt container attempt_id user_id a target s.world.db.answers s.world.db.questions
          (on_test_nav container telegram user_id clock attempt_id target s)
  unfolding on_test_nav
  on_test_nav-IsLiveAt target range =
      move_and_render-IsLiveAt container telegram attempt_id user_id (clock 1) (clock 0) target a s
        _ reach h range
        (ground (
          arith,
          reach.acknowledged,
          get_state-found attempt_id user_id (clock 0) s.world.db a h.found,
          h.is_open,
        ))

  pub on_test_answer-IsLiveAt :
      (pos : ℕ) (option : Text) (q : Question)
      → in_range pos ≡ true
      → get_by_test_position a.test_id pos s.world.db ≡ some q
      → let db = upsert (answer_of container.strip_upper attempt_id option q) s.world.db in
        IsLiveAt container attempt_id user_id a
          (pick_next_position (state_of attempt_id (clock 0) db a) pos)
          db.answers
          db.questions
          (on_test_answer container telegram user_id clock attempt_id pos option s)
  unfolding on_test_answer
  on_test_answer-IsLiveAt pos option q range at =
      let row = answer_of container.strip_upper attempt_id option q in
      let stored : Conversation container = record s {
        world = record s.world { db = upsert row s.world.db };
      } in
      let live : IsOpenFor attempt_id user_id stored.world.db a = record {
        found =
            get_attempt_for_user-attempts attempt_id user_id s.world.db stored.world.db
              (upsert-attempts row s.world.db)
            ∙ h.found;
        is_open = h.is_open;
        cursor = h.cursor;
        only =
            open_rows-attempts user_id s.world.db stored.world.db (upsert-attempts row s.world.db)
            ∙ h.only;
      } in
      let state = state_of attempt_id (clock 0) stored.world.db a in
      move_and_render-IsLiveAt container telegram attempt_id user_id (clock 1) (clock 0)
        (pick_next_position state pos) a stored _ reach live
        (IsNext-in_range (pos ∷ answered_positions state) pos a.current_position _ range h.cursor
          (pick_next_position-IsNext state pos (ground arith)))
        (ground (
          arith,
          reach.acknowledged,
          submit_answer-stores container.strip_upper attempt_id user_id pos option a q s.world h at,
          get_state-found attempt_id user_id (clock 0) stored.world.db a live.found,
          h.is_open,
        ))

  pub on_finish_request-shows : on_finish_request container telegram user_id clock attempt_id s ≡ (
    ok tt,
    shows
        (render_finish_confirmation attempt_id
          (answered_count (state_of attempt_id (clock 0) s.world.db a).answers))
        (record s {
          fsm = record { state = some confirming_finish; attempt_id = some attempt_id };
        }),
  )
  unfolding on_finish_request
  on_finish_request-shows =
      let dialog =
        render_finish_confirmation attempt_id
          (answered_count (state_of attempt_id (clock 0) s.world.db a).answers) in
      ground (
        arith,
        reach.acknowledged,
        get_state-found attempt_id user_id (clock 0) s.world.db a h.found,
        h.is_open,
        edit_or_answer-shows telegram dialog
            (record s {
              fsm = record { state = some confirming_finish; attempt_id = some attempt_id };
            })
            reach,
      )
