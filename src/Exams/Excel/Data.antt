-- ===== src/Exams/Excel/Data.antt =====
-- The cells, the results and the messages of app/services/excel_parser.py. A message is a constructor.
use testify.Common.{
  ℕ, zero, suc, Bool, false, Option, none, some, Text, text_eq, List, [], ◌∷◌, ◌++◌, ◌+◌, ◌==◌,
  ◌||◌, if◌then◌else◌, map,
}
use testify.Models.{Section, rus_tili, pedagogik, kasbiy, other}
use testify.Exams.Repository.{QuestionDraft}
use testify.Exams.Validation.{is_seen}
use testify.Exams.Validation.Fields.{FieldError, Texts}

-- The values of cells that openpyxl gives; an integer is one from 0 on or a negative one, and
-- `other_value` is any other value.
pub data Cell : Type 0 where
  no_value : Cell
  text : Text → Cell
  boolean : Bool → Cell
  whole negative other_value : ℕ → Cell

-- The nine columns of a row.
pub record Cells : Type 0 where
  pub section : Cell
  pub position : Cell
  pub question_text : Cell
  pub option_a : Cell
  pub option_b : Cell
  pub option_c : Cell
  pub option_d : Cell
  pub correct_option : Cell
  pub has_image : Cell

-- A row is padded with `None`, and its first nine cells are read.
abbrev pub cell_at : ℕ → List Cell → Cell
cell_at n [] = no_value
cell_at zero (c ∷ row) = c
cell_at (suc n) (c ∷ row) = cell_at n row

abbrev pub cells_of : List Cell → Cells
cells_of row = record {
  section = cell_at 0 row;
  position = cell_at 1 row;
  question_text = cell_at 2 row;
  option_a = cell_at 3 row;
  option_b = cell_at 4 row;
  option_c = cell_at 5 row;
  option_d = cell_at 6 row;
  correct_option = cell_at 7 row;
  has_image = cell_at 8 row;
}

pub data Message : Type 0 where
  unreadable no_sheet position_not_int unknown_has_image : Message
  empty_column : ℕ → Message
  field_message : FieldError → Message
  wrong_row_count position_used : ℕ → Message
  wrong_section_rows : Section → ℕ → ℕ → Message

-- `ParseError`
abbrev pub ParseError : Type 0
ParseError = ℕ × Message

-- `ParsedQuestion`; it has the fields of `QuestionDraft` without the image ids.
abbrev pub ParsedQuestion : Type 0
ParsedQuestion = QuestionDraft

-- The section that a key names.
abbrev pub section_of : Text → Section
section_of s =
    if text_eq s (b'r' ∷ b'u' ∷ b's' ∷ b'_' ∷ b't' ∷ b'i' ∷ b'l' ∷ b'i' ∷ [])
    then rus_tili
    else if text_eq s (b'p' ∷ b'e' ∷ b'd' ∷ b'a' ∷ b'g' ∷ b'o' ∷ b'g' ∷ b'i' ∷ b'k' ∷ [])
    then pedagogik
    else if text_eq s (b'k' ∷ b'a' ∷ b's' ∷ b'b' ∷ b'i' ∷ b'y' ∷ [])
    then kasbiy
    else other s

abbrev pub is_in : Text → List Text → Bool
is_in s [] = false
is_in s (t ∷ tokens) = text_eq s t || is_in s tokens

-- y, yes, true, 1, да, +, ✓, x
abbrev pub has_image_true : List Text
has_image_true =
    (b'y' ∷ [])
    ∷ (b'y' ∷ b'e' ∷ b's' ∷ [])
    ∷ (b't' ∷ b'r' ∷ b'u' ∷ b'e' ∷ [])
    ∷ (b'1' ∷ [])
    ∷ (1076 ∷ 1072 ∷ [])
    ∷ (b'+' ∷ [])
    ∷ (10003 ∷ [])
    ∷ (b'x' ∷ [])
    ∷ []

-- the empty text, n, no, false, 0, нет, -, —
abbrev pub has_image_false : List Text
has_image_false =
    []
    ∷ (b'n' ∷ [])
    ∷ (b'n' ∷ b'o' ∷ [])
    ∷ (b'f' ∷ b'a' ∷ b'l' ∷ b's' ∷ b'e' ∷ [])
    ∷ (b'0' ∷ [])
    ∷ (1085 ∷ 1077 ∷ 1090 ∷ [])
    ∷ (b'-' ∷ [])
    ∷ (8212 ∷ [])
    ∷ []

-- `section_counts`
pub record SectionCounts : Type 0 where
  pub rus_tili_count : ℕ
  pub pedagogik_count : ℕ
  pub kasbiy_count : ℕ

abbrev pub add_section : Section → SectionCounts → SectionCounts
add_section rus_tili c = record c { rus_tili_count = c.rus_tili_count + 1 }
add_section pedagogik c = record c { pedagogik_count = c.pedagogik_count + 1 }
add_section kasbiy c = record c { kasbiy_count = c.kasbiy_count + 1 }
add_section (other name) c = c

abbrev pub message_if : Bool → Message → List Message
message_if test message = if test then message ∷ [] else []

-- A row's question, if it is valid, its errors, and `seen_positions` and `section_counts` after it.
pub record RowResult : Type 0 where
  pub question : Option ParsedQuestion
  pub errors : List Message
  pub seen : List ℕ
  pub counts : SectionCounts

-- What the loop over the rows collects.
pub record Collected : Type 0 where
  pub questions : List ParsedQuestion
  pub errors : List ParseError
  pub counts : SectionCounts

abbrev pub collect : ℕ → RowResult → Collected → Collected
collect line r rest = record {
  questions = elim r.question [ none ↦ rest.questions | some q ↦ q ∷ rest.questions ];
  errors = map (λ m. (line, m)) r.errors ++ rest.errors;
  counts = rest.counts;
}

pub data ParseResult : Type 0 where
  parsed_test : List ParsedQuestion → ParseResult
  parse_errors : List ParseError → ParseResult

abbrev pub result_of : List ParseError → List ParsedQuestion → ParseResult
result_of [] questions = parsed_test questions
result_of (error ∷ errors) questions = parse_errors (error ∷ errors)

abbrev pub flag_of : Option Bool → Bool
flag_of none = false
flag_of (some flag) = flag

abbrev pub texts_of : ParsedQuestion → Texts
texts_of q = record {
  question_text = q.question_text;
  option_a = q.option_a;
  option_b = q.option_b;
  option_c = q.option_c;
  option_d = q.option_d;
}

abbrev pub image_error : Option Bool → List Message
image_error none = unknown_has_image ∷ []
image_error (some flag) = []

abbrev pub or_else : List Message → List Message → List Message
or_else [] later = later
or_else (m ∷ messages) later = m ∷ messages

-- the position of a row without errors
abbrev pub position_of : Cell → ℕ
position_of (whole n) = n
position_of cell = 0

-- The rest of the round for a valid row.
abbrev pub valid_row : List ℕ → SectionCounts → ParsedQuestion → RowResult
valid_row seen counts q = record {
  question = some q;
  errors = message_if (is_seen q.position seen) (position_used q.position);
  seen = if is_seen q.position seen then seen else q.position ∷ seen;
  counts = add_section q.section counts;
}

abbrev pub section_errors : Section → ℕ → ℕ → List ParseError
section_errors section actual expected =
    if actual == expected then [] else (0, wrong_section_rows section expected actual) ∷ []

abbrev pub no_counts : SectionCounts
no_counts = record { rus_tili_count = 0; pedagogik_count = 0; kasbiy_count = 0 }

abbrev pub file_errors : ℕ → SectionCounts → List ParseError
file_errors rows counts =
    if rows == 50
    then section_errors rus_tili counts.rus_tili_count 35
      ++ (section_errors pedagogik counts.pedagogik_count 10
          ++ section_errors kasbiy counts.kasbiy_count 5)
    else []

abbrev pub count_errors : ℕ → List ParseError
count_errors rows = if rows == 50 then [] else (0, wrong_row_count rows) ∷ []
