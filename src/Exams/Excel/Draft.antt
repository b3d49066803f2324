-- ===== src/Exams/Excel/Draft.antt =====
-- `create_draft_from_excel` of app/services/test_service.py.
use testify.Common.{ℕ, Bool, Option, Text, List, ◌⊎◌, inl, inr, map, insert, ◌++◌}
use testify.Effects.{Action, ok, err, Result}
use testify.Models.{Test, Database}
use testify.Exams.Repository.{new_draft, create_draft}
use testify.Exams.Repository.Bulk.{row_of}
use testify.Exams.Service.{title_or, add_questions}
use testify.Exams.Excel.Data.{
  Cell, ParseError, ParsedQuestion, ParseResult, parsed_test, parse_errors,
}
use testify.Exams.Excel.{parse}

-- The two ends of the call: `TestParseError` with its errors, before any write, or the draft.
abbrev pub Uploaded : Type 0
Uploaded = List ParseError ⊎ Test

-- The draft, where its questions were stored.
abbrev pub uploaded_draft : Test → Result Unit × Database → Result Uploaded × Database
uploaded_draft test (ok u, db) = (ok (inr test), db)
uploaded_draft test (err e, db) = (err e, db)

abbrev pub store_parsed :
    (ℕ → ℕ) → ℕ → ℕ → Text → Option ℕ → Option Text → ParseResult → Action Database Uploaded
store_parsed row_id id duration default_title admin_id title (parse_errors errors) db =
    (ok (inl errors), db)
store_parsed row_id id duration default_title admin_id title (parsed_test questions) db =
    let test = new_draft id (title_or default_title title) duration admin_id in
    uploaded_draft test (add_questions row_id id questions (create_draft test db))

-- `book` is what `load_workbook` gives, and `id` the id of the new row.
unfoldable pub create_draft_from_excel :
    (Cell → Text)
    → (ℕ → Bool)
    → (Text → Text)
    → (Text → Text)
    → (ℕ → ℕ)
    → ℕ
    → ℕ
    → Text
    → Option ℕ
    → Option Text
    → Option (Option (List (List Cell)))
    → Action Database Uploaded
create_draft_from_excel show is_space upper lower row_id id duration default_title admin_id title
      book =
    store_parsed row_id id duration default_title admin_id title
      (parse show is_space upper lower book)

-- The row of the draft.
abbrev pub draft_row : ℕ → ℕ → Text → Option ℕ → Option Text → Test
draft_row id duration default_title admin_id title =
    new_draft id (title_or default_title title) duration admin_id

-- The database with the draft and its questions.
abbrev pub uploaded : (ℕ → ℕ) → Test → List ParsedQuestion → Database → Database
uploaded row_id test questions db = record db {
  tests = insert test db.tests;
  questions = db.questions ++ map (row_of row_id test.id) questions;
}
