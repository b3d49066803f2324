-- ===== src/Exams/Validation/Fields.antt =====
-- `validate_question_fields` of app/services/question_validation.py. The messages are the
-- constructors of `Complaint`.
use testify.Common.{
  ℕ, Bool, Text, List, [], ◌∷◌, ◌++◌, ◌+◌, ◌*◌, leb, ltb, length, not, ◌&&◌, if◌then◌else◌, map,
  false, true,
}
use testify.Models.{Section, other}
use testify.Utils.Strip.{strip}
use testify.Utils.Markup.{Flaw, validate_markup, visible_length}
use testify.Exams.Repository.{in_range, is_option}

-- The fields of a `FieldError`; `whole_question` is the empty name.
pub data Field : Type 0 where
  section_field position_field question_text_field : Field
  option_a_field option_b_field option_c_field option_d_field : Field
  correct_option_field whole_question : Field

pub data Complaint : Type 0 where
  unknown_section out_of_range misplaced too_long wrong_option caption_too_long : Complaint
  bad_markup : Flaw → Complaint
  -- app/web/forms.py
  required no_correct : Complaint

abbrev pub FieldError : Type 0
FieldError = Field × Complaint

abbrev pub max_question_text_len : ℕ
max_question_text_len = 1000

abbrev pub max_option_text_len : ℕ
max_option_text_len = 300

abbrev pub max_image_caption_block_len : ℕ
max_image_caption_block_len = 850

abbrev pub caption_body_overhead : ℕ
caption_body_overhead = 2 + 4 * 3 + 3

abbrev pub complain : Bool → Field → Complaint → List FieldError
complain test field complaint = if test then (field, complaint) ∷ [] else []

-- `section in VALID_SECTIONS`
abbrev pub is_valid_section : Section → Bool
is_valid_section (other name) = false
is_valid_section _ = true

-- `SECTION_RANGES` holds the ranges of the CHECK constraint, which `in_range` writes out.
abbrev pub place_errors : Section → ℕ → List FieldError
place_errors section position =
    if not (leb 1 position && leb position 50)
    then (position_field, out_of_range) ∷ []
    else complain (is_valid_section section && not (in_range section position)) position_field
        misplaced

-- The five texts of a question.
pub record Texts : Type 0 where
  pub question_text : Text
  pub option_a : Text
  pub option_b : Text
  pub option_c : Text
  pub option_d : Text

unfoldable pub caption_block_length : (ℕ → Bool) → Texts → ℕ
caption_block_length is_space texts =
    visible_length (strip is_space texts.question_text)
    + visible_length (strip is_space texts.option_a)
    + visible_length (strip is_space texts.option_b)
    + visible_length (strip is_space texts.option_c)
    + visible_length (strip is_space texts.option_d)
    + caption_body_overhead

abbrev pub length_errors : Texts → List FieldError
length_errors texts =
    complain (ltb max_question_text_len (length texts.question_text)) question_text_field too_long
    ++ complain (ltb max_option_text_len (length texts.option_a)) option_a_field too_long
    ++ complain (ltb max_option_text_len (length texts.option_b)) option_b_field too_long
    ++ complain (ltb max_option_text_len (length texts.option_c)) option_c_field too_long
    ++ complain (ltb max_option_text_len (length texts.option_d)) option_d_field too_long

abbrev pub flaws_of : (ℕ → Bool) → Field → Text → List FieldError
flaws_of is_space field text =
    map (λ flaw. (field, bad_markup flaw)) (validate_markup is_space text)

abbrev pub markup_errors : (ℕ → Bool) → Texts → List FieldError
markup_errors is_space texts =
    flaws_of is_space question_text_field texts.question_text
    ++ flaws_of is_space option_a_field texts.option_a
    ++ flaws_of is_space option_b_field texts.option_b
    ++ flaws_of is_space option_c_field texts.option_c
    ++ flaws_of is_space option_d_field texts.option_d

unfoldable pub validate_question_fields :
    (ℕ → Bool) → Section → ℕ → Texts → Text → Bool → List FieldError
validate_question_fields is_space section position texts correct_option has_image =
    complain (not (is_valid_section section)) section_field unknown_section
    ++ (place_errors section position
        ++ (length_errors texts
            ++ (complain (not (is_option correct_option)) correct_option_field wrong_option
                ++ (markup_errors is_space texts
                    ++ complain
                        (has_image
                          && ltb max_image_caption_block_len (caption_block_length is_space texts))
                        whole_question caption_too_long))))
