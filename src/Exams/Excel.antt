-- ===== src/Exams/Excel.antt =====
-- app/services/excel_parser.py. A message is a constructor; `show` is `str` of a cell that holds no
-- text, `is_space` is `str.isspace` of a character, and `upper` and `lower` are `str.upper` and
-- `str.lower`.
pub mod Data
pub mod Rows
pub mod Complete
pub mod Match
pub mod Draft
use testify.Common.{
  ℕ, zero, suc, Bool, true, false, Option, none, some, Text, text_eq, List, [], ◌∷◌, ◌++◌, ◌+◌,
  ◌==◌, ◌||◌, length, if◌then◌else◌, map,
}
use testify.Models.{Section, rus_tili, pedagogik, kasbiy, other}
use testify.Utils.Strip.{strip, is_empty}
use testify.Exams.Repository.{QuestionDraft}
use testify.Exams.Validation.{is_seen}
use testify.Exams.Validation.Fields.{FieldError, Texts, validate_question_fields}
use testify.Exams.Excel.Data.{
  Cell, no_value, text, boolean, whole, negative, other_value, Cells, cell_at, cells_of, Message,
  unreadable, no_sheet, position_not_int, unknown_has_image, empty_column, field_message,
  wrong_row_count, position_used, wrong_section_rows, ParseError, ParsedQuestion, section_of, is_in,
  has_image_true, has_image_false, SectionCounts, add_section, message_if, RowResult, Collected,
  collect, ParseResult, parsed_test, parse_errors, result_of, flag_of, texts_of, image_error,
  or_else, position_of, valid_row, section_errors, no_counts, file_errors, count_errors,
}

module _ (show : Cell → Text) (is_space : ℕ → Bool) (upper lower : Text → Text) where
  -- `str(value).strip()`
  abbrev pub stripped : Cell → Text
  stripped (text s) = strip is_space s
  stripped cell = strip is_space (show cell)

  abbrev pub is_missing : Cell → Bool
  is_missing no_value = true
  is_missing (text s) = is_empty (strip is_space s)
  is_missing cell = false

  -- `_parse_has_image`; `none` is the error, which comes with the flag off.
  abbrev pub parse_has_image : Cell → Option Bool
  parse_has_image no_value = some false
  parse_has_image (boolean flag) = some flag
  parse_has_image cell =
      let token = lower (stripped cell) in
      if is_in token has_image_true
      then some true
      else if is_in token has_image_false
      then some false
      else none

  abbrev pub missing_columns : Cells → List Message
  missing_columns c =
      message_if (is_missing c.section) (empty_column 0)
      ++ message_if (is_missing c.position) (empty_column 1)
      ++ message_if (is_missing c.question_text) (empty_column 2)
      ++ message_if (is_missing c.option_a) (empty_column 3)
      ++ message_if (is_missing c.option_b) (empty_column 4)
      ++ message_if (is_missing c.option_c) (empty_column 5)
      ++ message_if (is_missing c.option_d) (empty_column 6)
      ++ message_if (is_missing c.correct_option) (empty_column 7)

  -- `_build_question` with the position of the row.
  abbrev pub build_question : Cells → ℕ → ParsedQuestion
  build_question c position = record {
    section = section_of (stripped c.section);
    position = position;
    question_text = stripped c.question_text;
    option_a = stripped c.option_a;
    option_b = stripped c.option_b;
    option_c = stripped c.option_c;
    option_d = stripped c.option_d;
    correct_option = upper (stripped c.correct_option);
    has_image = flag_of (parse_has_image c.has_image);
    image_file_id = none;
    image_file_unique_id = none;
  }

  -- `_validate_row` where the columns are filled; a negative position has the errors of 0.
  abbrev pub value_errors : Cells → ℕ → List Message
  value_errors c position =
      let q = build_question c position in
      image_error (parse_has_image c.has_image)
      ++ map (λ e. field_message e)
          (validate_question_fields is_space q.section position (texts_of q) q.correct_option
            q.has_image)

  abbrev pub typed_errors : Cells → Cell → List Message
  typed_errors c (whole n) = value_errors c n
  typed_errors c (negative n) = value_errors c 0
  typed_errors c _ = position_not_int ∷ []

  -- `_validate_row`
  unfoldable pub validate_row : Cells → List Message
  validate_row c = or_else (missing_columns c) (typed_errors c c.position)

  abbrev pub row_of : List ℕ → SectionCounts → Cells → List Message → RowResult
  row_of seen counts c [] = valid_row seen counts (build_question c (position_of c.position))
  row_of seen counts c (m ∷ messages) = record {
    question = none;
    errors = m ∷ messages;
    seen = seen;
    counts = counts;
  }

  -- The loop over the rows from a line on.
  unfoldable pub read_rows : ℕ → List ℕ → SectionCounts → List (List Cell) → Collected
  unfolding validate_row
  read_rows line seen counts [] = record { questions = []; errors = []; counts = counts }
  read_rows line seen counts (row ∷ rows) =
      let c = cells_of row in
      let r = row_of seen counts c (validate_row c) in
      collect line r (read_rows (line + 1) r.seen r.counts rows)

  unfoldable pub parse_rows : List (List Cell) → ParseResult
  unfolding read_rows
  parse_rows rows =
      let all = read_rows 2 [] no_counts rows in
      result_of (count_errors (length rows) ++ (all.errors ++ file_errors (length rows) all.counts))
        all.questions

  -- `parse`, on what `load_workbook` gives: `none` where it raises, and otherwise the rows of the
  -- sheet `Questions` from the second on, or `none` where the file has no such sheet.
  unfoldable pub parse : Option (Option (List (List Cell))) → ParseResult
  unfolding parse_rows
  parse none = parse_errors ((0, unreadable) ∷ [])
  parse (some none) = parse_errors ((0, no_sheet) ∷ [])
  parse (some (some rows)) = parse_rows rows
