-- ===== src/Bot/Screen/Result.antt =====
-- app/bot/views/result_screen.py. `is_space` is `str.isspace`, for the link that is stripped.
use testify.Common.{
  ℕ, Bool, true, false, Option, none, some, List, [], ◌∷◌, ◌++◌, map, Text, ◌==◌, ◌-◌, ◌*◌, ◌/◌,
  leb, length, if◌then◌else◌, select,
}
use testify.Models.{Attempt, Section, rus_tili, pedagogik, kasbiy}
use testify.Scoring.{SectionScores}
use testify.Utils.Strip.{strip, is_empty}
use testify.Bot.Screen.{
  test_finish, confirm_start_test, cancel_pretest, confirm_finish, continue_test, take_test, cancel,
  go_to_chat, callback_button, link_button, Keyboard, format_duration_mm_ss, Icon, right_icon,
  wrong_icon, unanswered_icon, MarkLine, section_title, icons, blank, wrong_positions,
  unanswered_positions, ResultText, pretest_text, finish_text, result_text, prior_result_text,
  RenderedMessage,
}
use testify.Bot.Screen.Test.{contains, range_from}

-- The pairs of `get_question_marks`; as a dict a later pair of the same position wins.
abbrev pub Marks : Type 0
Marks = List (ℕ × Option Bool)

-- `_TOTAL_QUESTIONS`
abbrev pub total_questions : ℕ
total_questions = 50

-- ---------- before and at the end of a test ----------

unfoldable pub render_pretest_screen : RenderedMessage
render_pretest_screen = record {
  text = pretest_text;
  reply_markup = some (
      (callback_button take_test confirm_start_test ∷ [])
      ∷ (callback_button cancel cancel_pretest ∷ [])
      ∷ []);
  photo_file_id = none;
}

unfoldable pub render_finish_confirmation : ℕ → ℕ → RenderedMessage
render_finish_confirmation attempt_id answered_count = record {
  text = finish_text answered_count total_questions (total_questions - answered_count);
  reply_markup = some (
      (callback_button confirm_finish (test_finish attempt_id true) ∷ [])
      ∷ (callback_button continue_test (test_finish attempt_id false) ∷ [])
      ∷ []);
  photo_file_id = none;
}

-- ---------- the marks ----------

-- The items of the dict.
unfoldable pub items : Marks → Marks
unfolding contains
items [] = []
items ((pos, value) ∷ marks) =
    let rest = items marks in
    if contains (map (λ (m : ℕ × Option Bool). m.0) marks) pos then rest else (pos, value) ∷ rest

abbrev pub icon_of : Option Bool → Icon
icon_of (some true) = right_icon
icon_of (some false) = wrong_icon
icon_of none = unanswered_icon

-- The icon of `marks.get(pos)`.
unfoldable pub icon_at : Marks → ℕ → Icon
icon_at [] pos = unanswered_icon
icon_at ((p, value) ∷ marks) pos = if p == pos then icon_of value else icon_at marks pos

-- The loop that fills rows of `_MARKS_PER_ROW` icons.
unfoldable pub fill_rows : List (ℕ × Icon) → List (ℕ × Icon) → List MarkLine
fill_rows [] row = if is_empty row then [] else icons row ∷ []
fill_rows (x ∷ rest) row =
    let full = icons (row ++ (x ∷ [])) ∷ fill_rows rest [] in
    let longer = fill_rows rest (row ++ (x ∷ [])) in
    if length (row ++ (x ∷ [])) == 10 then full else longer

abbrev pub section_lines : Marks → Section → ℕ → ℕ → List MarkLine
section_lines marks section lo n =
    section_title section ∷ fill_rows (map (λ pos. (pos, icon_at marks pos)) (range_from lo n)) []

-- `sorted`, by insertion.
unfoldable pub insert_sorted : ℕ → List ℕ → List ℕ
insert_sorted p [] = p ∷ []
insert_sorted p (q ∷ rest) =
    let later = q ∷ insert_sorted p rest in if leb p q then p ∷ q ∷ rest else later

unfoldable pub sorted : List ℕ → List ℕ
unfolding insert_sorted
sorted [] = []
sorted (p ∷ rest) = insert_sorted p (sorted rest)

abbrev pub is_wrong : ℕ × Option Bool → Bool
is_wrong (p, some false) = true
is_wrong _ = false

abbrev pub is_unanswered : ℕ × Option Bool → Bool
is_unanswered (p, none) = true
is_unanswered _ = false

unfoldable pub positions_with : (ℕ × Option Bool → Bool) → Marks → List ℕ
unfolding sorted
positions_with p marks = sorted (map (λ (m : ℕ × Option Bool). m.0) (select p marks))

-- A summary line, for positions that are not empty.
abbrev pub summary : (List ℕ → MarkLine) → List ℕ → List MarkLine
summary line [] = []
summary line (p ∷ rest) = line (p ∷ rest) ∷ []

abbrev pub summaries : List ℕ → List ℕ → List MarkLine
summaries [] [] = []
summaries wrong unanswered =
    blank ∷ summary wrong_positions wrong ++ summary unanswered_positions unanswered

-- `_marks_block`; the blank line before the first title is stripped.
unfoldable pub marks_block : Marks → List MarkLine
unfolding items fill_rows positions_with
marks_block marks =
    let dict = items marks in
    if is_empty marks
    then []
    else section_lines dict rus_tili 1 35
      ++ (blank ∷ section_lines dict pedagogik 36 10)
      ++ (blank ∷ section_lines dict kasbiy 46 5)
      ++ summaries (positions_with is_wrong dict) (positions_with is_unanswered dict)

-- ---------- the result ----------

-- `(group_invite_link or "").strip()`
abbrev pub link_of : (ℕ → Bool) → Option Text → Text
link_of is_space none = []
link_of is_space (some link) = strip is_space link

-- `_chat_link_keyboard`
unfoldable pub chat_link_keyboard : (ℕ → Bool) → Option Text → Option Keyboard
chat_link_keyboard is_space link =
    let stripped = link_of is_space link in
    if is_empty stripped then none else some ((link_button go_to_chat stripped ∷ []) ∷ [])

-- `_format_attempt_duration`
abbrev pub duration_of : ℕ → Option ℕ → Option (ℕ × ℕ)
duration_of started_at none = none
duration_of started_at (some finished_at) =
    some (format_duration_mm_ss ((finished_at - started_at) / 1000000))

abbrev pub scores_text : SectionScores → Marks → ResultText
scores_text scores marks = record {
  total = scores.total;
  rus_tili = scores.rus_tili;
  pedagogik = scores.pedagogik;
  kasbiy = scores.kasbiy;
  marks = marks_block marks;
}

-- `round(total / 50 * 100, 1)` is twice the total.
unfoldable pub render_result_screen :
    (ℕ → Bool) → Attempt → SectionScores → Option Text → Marks → RenderedMessage
unfolding marks_block chat_link_keyboard
render_result_screen is_space attempt scores link marks = record {
  text =
      result_text (scores_text scores marks) (2 * scores.total)
        (duration_of attempt.started_at attempt.finished_at);
  reply_markup = chat_link_keyboard is_space link;
  photo_file_id = none;
}

unfoldable pub render_prior_result_screen :
    (ℕ → Bool) → SectionScores → Option Text → Marks → RenderedMessage
unfolding marks_block chat_link_keyboard
render_prior_result_screen is_space scores link marks = record {
  text = prior_result_text (scores_text scores marks);
  reply_markup = chat_link_keyboard is_space link;
  photo_file_id = none;
}
