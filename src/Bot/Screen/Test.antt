-- ===== src/Bot/Screen/Test.antt =====
-- app/bot/views/test_screen.py
use testify.Common.{
  ℕ, zero, suc, Bool, true, false, Option, none, some, List, [], ◌∷◌, map, Text, ◌==◌, ◌+◌, ◌-◌,
  ltb, if◌then◌else◌,
}
use mathlib.Core.Option
use testify.Models.{Question, Answer}
use testify.Scoring.{question_by_id}
use testify.Attempts.Service.{AttemptState}
use testify.Utils.Markup.{render_markup}
use testify.Bot.Screen.{
  test_answer, test_nav, test_finish, Label, option_letter, back, forward, finish_test, number,
  current_number, answered_number, Button, callback_button, Keyboard, format_duration_mm_ss,
  QuestionBody, TestText, test_text, RenderedMessage,
}

-- `position in positions`
unfoldable pub contains : List ℕ → ℕ → Bool
contains [] position = false
contains (p ∷ positions) position = if p == position then true else contains positions position

-- `range(start, start + n)`
unfoldable pub range_from : ℕ → ℕ → List ℕ
range_from start zero = []
range_from start (suc n) = start ∷ range_from (start + 1) n

-- `_answered_positions`: the position of an answer whose question is known.
abbrev pub add_position : Option Question → List ℕ → List ℕ
add_position none positions = positions
add_position (some q) positions = q.position ∷ positions

unfoldable pub positions_of : List Question → List Answer → List ℕ
positions_of questions [] = []
positions_of questions (a ∷ answers) =
    add_position (question_by_id questions a.question_id) (positions_of questions answers)

unfoldable pub answered_positions : AttemptState → List ℕ
unfolding positions_of
answered_positions state = positions_of state.questions state.answers

-- `{q.position: q for q in questions}.get(position)`: a later question wins.
unfoldable pub question_at : List Question → ℕ → Option Question
question_at [] position = none
question_at (q ∷ questions) position = elim (question_at questions position) [
  | some later ↦ some later
  | none ↦ if q.position == position then some q else none
]

-- ---------- text ----------

abbrev pub question_body : Question → QuestionBody
question_body q = record {
  question_text = render_markup (some q.question_text);
  option_a = render_markup (some q.option_a);
  option_b = render_markup (some q.option_b);
  option_c = render_markup (some q.option_c);
  option_d = render_markup (some q.option_d);
}

abbrev pub test_text_of : AttemptState → Option Question → TestText
test_text_of state question = record {
  time_left = format_duration_mm_ss state.time_remaining_seconds;
  position = state.current_position;
  section = Option.map (λ (q : Question). q.section) question;
  body = Option.map question_body question;
}

-- An empty file id is false in Python.
abbrev pub truthy : Option Text → Option Text
truthy none = none
truthy (some []) = none
truthy (some (c ∷ text)) = some (c ∷ text)

abbrev pub photo_of : Option Question → Option Text
photo_of none = none
photo_of (some q) = truthy q.image_file_id

-- ---------- keyboard ----------

-- `_format_grid_label`
unfoldable pub format_grid_label : ℕ → ℕ → List ℕ → Label
unfolding contains
format_grid_label position current answered =
    if position == current
    then current_number position
    else if contains answered position
    then answered_number position
    else number position

abbrev pub answer_row : ℕ → ℕ → Text → List Button
answer_row attempt_id position option =
    callback_button (option_letter option) (test_answer attempt_id position option) ∷ []

abbrev pub grid_row : ℕ → ℕ → List ℕ → ℕ → List Button
grid_row attempt_id current answered first =
    map (λ pos. callback_button (format_grid_label pos current answered) (test_nav attempt_id pos))
      (range_from first 10)

-- `max(1, current - 1)` and `min(50, current + 1)`
abbrev pub previous_position : ℕ → ℕ
previous_position current = if ltb (current - 1) 1 then 1 else current - 1

abbrev pub next_position : ℕ → ℕ
next_position current = if ltb 50 (current + 1) then 50 else current + 1

-- `_build_keyboard`
unfoldable pub build_keyboard : ℕ → ℕ → List ℕ → Keyboard
unfolding range_from format_grid_label
build_keyboard attempt_id current answered =
    answer_row attempt_id current (b'A' ∷ [])
    ∷ answer_row attempt_id current (b'B' ∷ [])
    ∷ answer_row attempt_id current (b'C' ∷ [])
    ∷ answer_row attempt_id current (b'D' ∷ [])
    ∷ (callback_button back (test_nav attempt_id (previous_position current))
        ∷ callback_button forward (test_nav attempt_id (next_position current))
        ∷ [])
    ∷ (callback_button finish_test (test_finish attempt_id false) ∷ [])
    ∷ map (grid_row attempt_id current answered) (1 ∷ 11 ∷ 21 ∷ 31 ∷ 41 ∷ [])

-- `render_test_screen`
unfoldable pub render_test_screen : AttemptState → RenderedMessage
unfolding question_at answered_positions build_keyboard
render_test_screen state =
    let question = question_at state.questions state.current_position in
    record {
      text = test_text (test_text_of state question);
      reply_markup =
          some (build_keyboard state.attempt_id state.current_position (answered_positions state));
      photo_file_id = photo_of question;
    }
