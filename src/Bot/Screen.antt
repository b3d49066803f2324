-- ===== src/Bot/Screen.antt =====
-- What the bot shows and what a tap sends back: app/bot/views/__init__.py and
-- app/bot/callbacks/test.py. The fixed Russian wording is left out: a text is what is filled in.
pub mod Test
pub mod Result
use testify.Common.{ℕ, Bool, Option, none, List, Text, ◌/◌, ◌%◌}
use testify.Models.{Section}

-- `TestAnswerCD`, `TestNavCD` and `TestFinishCD`, and the callbacks of the pre-test screen.
pub data Callback : Type 0 where
  test_answer : ℕ → ℕ → Text → Callback
  test_nav : ℕ → ℕ → Callback
  test_finish : ℕ → Bool → Callback
  confirm_start_test cancel_pretest : Callback

pub data Label : Type 0 where
  option_letter : Text → Label
  back forward finish_test confirm_finish continue_test take_test cancel go_to_chat : Label
  number current_number answered_number : ℕ → Label

-- A button sends a callback or opens a link.
pub data Button : Type 0 where
  callback_button : Label → Callback → Button
  link_button : Label → Text → Button

-- An inline keyboard: its rows.
abbrev pub Keyboard : Type 0
Keyboard = List (List Button)

-- `format_duration_mm_ss` of app/utils/datetime.py: the two numbers that it prints.
abbrev pub format_duration_mm_ss : ℕ → ℕ × ℕ
format_duration_mm_ss seconds = (seconds / 60, seconds % 60)

-- The question with its options, as HTML.
pub record QuestionBody : Type 0 where
  pub question_text : Text
  pub option_a : Text
  pub option_b : Text
  pub option_c : Text
  pub option_d : Text

-- The header line and the body; there is no section and no body without a question.
pub record TestText : Type 0 where
  pub time_left : ℕ × ℕ
  pub position : ℕ
  pub section : Option Section
  pub body : Option QuestionBody

pub data Icon : Type 0 where
  right_icon wrong_icon unanswered_icon : Icon

-- The lines of the marks block.
pub data MarkLine : Type 0 where
  section_title : Section → MarkLine
  icons : List (ℕ × Icon) → MarkLine
  blank : MarkLine
  wrong_positions unanswered_positions : List ℕ → MarkLine

-- The result; the percentage and the duration are not on the screen of a prior result.
pub record ResultText : Type 0 where
  pub total : ℕ
  pub rus_tili : ℕ
  pub pedagogik : ℕ
  pub kasbiy : ℕ
  pub marks : List MarkLine

pub data Content : Type 0 where
  test_text : TestText → Content
  pretest_text : Content
  finish_text : ℕ → ℕ → ℕ → Content
  result_text : ResultText → ℕ → Option (ℕ × ℕ) → Content
  prior_result_text : ResultText → Content
  no_active_test_text : Option Text → Content
  not_approved_text pretest_cancelled_text : Content

-- `RenderedMessage`
pub record RenderedMessage : Type 0 where
  pub text : Content
  pub reply_markup : Option Keyboard
  pub photo_file_id : Option Text

abbrev pub plain : Content → RenderedMessage
plain text = record { text = text; reply_markup = none; photo_file_id = none }
