-- ===== src/Exams/Form.antt =====
-- app/web/forms.py, and `save_draft` of app/web/handlers/tests.py. `is_space` is `str.isspace` of a
-- character and `upper` is `str.upper`.
pub mod Cards
pub mod Loop
pub mod Stored
pub mod Save
use testify.Common.{
  ℕ, zero, suc, Bool, Option, none, some, Text, text_eq, List, [], ◌∷◌, ◌++◌, ltb, length, not,
  ◌||◌, if◌then◌else◌, false, ◌+◌, true,
}
use testify.Effects.{Action, pure, gets, assert_some, ◌>>=◌, ◌>>◌}
use testify.Models.{Section, Test, Database, is_draft}
use testify.Utils.Strip.{strip, is_empty}
use testify.Exams.Repository.{QuestionDraft, get_by_id}
use testify.Exams.Service.{update_title, replace_draft_questions}
use testify.Exams.Validation.{section_for_position}
use testify.Exams.Validation.Fields.{
  FieldError, Texts, validate_question_fields, complain, required, no_correct, question_text_field,
  option_a_field, option_b_field, option_c_field, option_d_field, correct_option_field,
}

-- The names of the form's fields: `title`, and `q{pos}_text` and the like of a position.
pub data Key : Type 0 where
  title_key : Key
  text_key a_key b_key c_key d_key correct_key has_image_key : ℕ → Key

-- The POST mapping; `none` is a missing key, or a value that is no text.
abbrev pub FormData : Type 0
FormData = Key → Option Text

-- `_get`
abbrev pub get : (ℕ → Bool) → FormData → Key → Text
get is_space data_of key = elim (data_of key) [ none ↦ [] | some value ↦ strip is_space value ]

-- The values of one card, which `raw` echoes back.
pub record RawCard : Type 0 where
  pub texts : Texts
  pub correct : Text
  pub has_image : Bool

abbrev pub is_checked : Option Text → Bool
is_checked none = false
is_checked (some value) = text_eq value (b'1' ∷ [])

abbrev pub read_card : (ℕ → Bool) → (Text → Text) → FormData → ℕ → RawCard
read_card is_space upper data_of pos = record {
  texts = record {
    question_text = get is_space data_of (text_key pos);
    option_a = get is_space data_of (a_key pos);
    option_b = get is_space data_of (b_key pos);
    option_c = get is_space data_of (c_key pos);
    option_d = get is_space data_of (d_key pos);
  };
  correct = upper (get is_space data_of (correct_key pos));
  has_image = is_checked (data_of (has_image_key pos));
}

-- `any(filled)`
abbrev pub is_filled : RawCard → Bool
is_filled card =
    not (is_empty card.texts.question_text)
    || not (is_empty card.texts.option_a)
    || not (is_empty card.texts.option_b)
    || not (is_empty card.texts.option_c)
    || not (is_empty card.texts.option_d)
    || not (is_empty card.correct)

abbrev pub missing_fields : RawCard → List FieldError
missing_fields card =
    complain (is_empty card.texts.question_text) question_text_field required
    ++ complain (is_empty card.texts.option_a) option_a_field required
    ++ complain (is_empty card.texts.option_b) option_b_field required
    ++ complain (is_empty card.texts.option_c) option_c_field required
    ++ complain (is_empty card.texts.option_d) option_d_field required
    ++ complain (is_empty card.correct) correct_option_field no_correct

abbrev pub draft_of : Section → ℕ → RawCard → QuestionDraft
draft_of section pos card = record {
  section = section;
  position = pos;
  question_text = card.texts.question_text;
  option_a = card.texts.option_a;
  option_b = card.texts.option_b;
  option_c = card.texts.option_c;
  option_d = card.texts.option_d;
  correct_option = card.correct;
  has_image = card.has_image;
  image_file_id = none;
  image_file_unique_id = none;
}

-- What one round of the loop does with a card: nothing, `field_errors[pos] = …` or
-- `drafts.append(…)`; or the assertion on the section fails. The errors of a position are kept as a
-- list, of which the dictionary of the source has the last one for each field.
pub data CardOutcome : Type 0 where
  skipped assertion_failed : CardOutcome
  refused : FieldError → List FieldError → CardOutcome
  accepted : QuestionDraft → CardOutcome

abbrev pub refused_or : List FieldError → CardOutcome → CardOutcome
refused_or [] otherwise = otherwise
refused_or (error ∷ errors) otherwise = refused error errors

abbrev pub place_card : (ℕ → Bool) → ℕ → RawCard → Option Section → CardOutcome
place_card is_space pos card none = assertion_failed
place_card is_space pos card (some section) =
    refused_or
      (validate_question_fields is_space section pos card.texts card.correct card.has_image)
      (accepted (draft_of section pos card))

unfoldable pub parse_card : (ℕ → Bool) → ℕ → RawCard → CardOutcome
parse_card is_space pos card =
    if is_filled card
    then refused_or (missing_fields card) (place_card is_space pos card (section_for_position pos))
    else skipped

pub data FormError : Type 0 where
  no_title long_title : FormError

pub record ParsedTestForm : Type 0 where
  pub title : Text
  pub drafts : List QuestionDraft
  pub field_errors : List (ℕ × List FieldError)
  pub form_errors : List FormError
  pub raw : List (ℕ × RawCard)

-- `has_errors`
abbrev pub has_errors : ParsedTestForm → Bool
has_errors parsed = not (is_empty parsed.field_errors) || not (is_empty parsed.form_errors)

abbrev pub add_card : ℕ → RawCard → CardOutcome → ParsedTestForm → Option ParsedTestForm
add_card pos card skipped rest = some (record rest { raw = (pos, card) ∷ rest.raw })
add_card pos card assertion_failed rest = none
add_card pos card (refused error errors) rest = some (record rest {
  raw = (pos, card) ∷ rest.raw;
  field_errors = (pos, error ∷ errors) ∷ rest.field_errors;
})
add_card pos card (accepted draft) rest =
    some (record rest { raw = (pos, card) ∷ rest.raw; drafts = draft ∷ rest.drafts })

abbrev pub title_errors : Text → List FormError
title_errors title =
    if is_empty title then no_title ∷ [] else if ltb 200 (length title) then long_title ∷ [] else []

abbrev pub empty_form : Text → ParsedTestForm
empty_form title = record {
  title = title;
  drafts = [];
  field_errors = [];
  form_errors = title_errors title;
  raw = [];
}

-- The answers of `save_draft`.
pub data Response : Type 0 where
  not_found conflict refused_form see_other : Response

-- The two writes of a form without errors.
abbrev pub store_parsed : (ℕ → Bool) → (ℕ → ℕ) → ℕ → ParsedTestForm → Action Database Response
store_parsed is_space row_id test_id parsed =
    update_title (strip is_space) test_id parsed.title
    >> (replace_draft_questions row_id test_id parsed.drafts >> pure see_other)

abbrev pub save_parsed : (ℕ → Bool) → (ℕ → ℕ) → ℕ → ParsedTestForm → Action Database Response
save_parsed is_space row_id test_id parsed =
    if has_errors parsed then pure refused_form else store_parsed is_space row_id test_id parsed

abbrev pub save_found :
    (ℕ → Bool) → (ℕ → ℕ) → ℕ → ParsedTestForm → Option Test → Action Database Response
save_found is_space row_id test_id parsed none = pure not_found
save_found is_space row_id test_id parsed (some test) =
    if is_draft test.status then save_parsed is_space row_id test_id parsed else pure conflict

module _ (is_space : ℕ → Bool) (upper : Text → Text) (form_data : FormData) where
  -- The loop's rounds from `pos` on, `count` of them.
  unfoldable pub parse_cards : ℕ → ℕ → ParsedTestForm → Option ParsedTestForm
  parse_cards pos zero parsed = some parsed
  parse_cards pos (suc count) parsed =
      let card = read_card is_space upper form_data pos in
      elim (parse_cards (pos + 1) count parsed) [
        | none ↦ none
        | some rest ↦ add_card pos card (parse_card is_space pos card) rest
      ]

  -- `parse_test_form`; `none` is an `AssertionError`.
  unfoldable pub parse_test_form : Option ParsedTestForm
  unfolding parse_cards
  parse_test_form = parse_cards 1 50 (empty_form (get is_space form_data title_key))

  unfoldable pub save_draft : (ℕ → ℕ) → ℕ → Action Database Response
  unfolding parse_test_form
  save_draft row_id test_id = do
    parsed ← assert_some parse_test_form
    test ← gets (get_by_id test_id)
    save_found is_space row_id test_id parsed test
