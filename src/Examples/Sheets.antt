-- ===== src/Examples/Sheets.antt =====
-- Spreadsheets: a full one is stored, and one row is too few.
use testify.Models.{Test}
use testify.Common.{
  ℕ, zero, suc, Bool, Text, some, none, List, [], ◌∷◌, ◌++◌, ◌≡◌, ◌+◌, ◌==◌, refl, text_eq,
}
use testify.Utils.Strip.{strip, lstrip, rstrip}
use testify.Utils.Markup.{validate_markup, segments, count_marker, has_empty_pair}
use testify.Exams.Validation.Fields.{validate_question_fields}
use testify.Exams.Excel.Data.{Cell, text, whole, parse_errors, wrong_row_count}
use testify.Exams.Excel.{parse, parse_rows, read_rows, validate_row}
use testify.Exams.Excel.Draft.{draft_row}
use testify.Examples.Data.{letter_a}

abbrev is_blank : ℕ → Bool
is_blank c = c == 32

abbrev same_case : Text → Text
same_case s = s

abbrev shown : Cell → Text
shown cell = letter_a

abbrev key_rus_tili : Text
key_rus_tili = b'r' ∷ b'u' ∷ b's' ∷ b'_' ∷ b't' ∷ b'i' ∷ b'l' ∷ b'i' ∷ []

abbrev key_pedagogik : Text
key_pedagogik = b'p' ∷ b'e' ∷ b'd' ∷ b'a' ∷ b'g' ∷ b'o' ∷ b'g' ∷ b'i' ∷ b'k' ∷ []

abbrev key_kasbiy : Text
key_kasbiy = b'k' ∷ b'a' ∷ b's' ∷ b'b' ∷ b'i' ∷ b'y' ∷ []

-- A row without the column of the image.
abbrev sheet_row : Text → ℕ → List Cell
sheet_row key position =
    text key
    ∷ whole position
    ∷ text letter_a
    ∷ text letter_a
    ∷ text letter_a
    ∷ text letter_a
    ∷ text letter_a
    ∷ text letter_a
    ∷ []

abbrev rows_from : Text → ℕ → ℕ → List (List Cell)
rows_from key position zero = []
rows_from key position (suc n) = sheet_row key position ∷ rows_from key (position + 1) n

abbrev full_sheet : List (List Cell)
full_sheet =
    rows_from key_rus_tili 1 35 ++ (rows_from key_pedagogik 36 10 ++ rows_from key_kasbiy 46 5)

one_row :
    parse shown is_blank same_case same_case (some (some (sheet_row key_rus_tili 1 ∷ [])))
    ≡ parse_errors ((0, wrong_row_count 1) ∷ [])
unfolding parse parse_rows read_rows validate_row validate_question_fields validate_markup segments
    count_marker has_empty_pair strip lstrip rstrip text_eq
one_row = refl

abbrev uploaded_row : Test
uploaded_row = draft_row 9 3200 letter_a none none
