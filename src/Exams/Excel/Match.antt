-- ===== src/Exams/Excel/Match.antt =====
-- Which questions a spreadsheet holds, read off its rows cell by cell.
pub mod Parse
use testify.Exams.Excel.Complete.{
  parse-IsComplete, IsRead, read_rows-IsRead, length-placed, result_of-parsed,
}
use testify.Common.{
  ℕ, Bool, true, false, Option, none, some, Text, List, [], ◌∷◌, ◌≡◌, ◌==◌, ◌+◌, All, Distinct,
  count, map, refl, arith, ap, sym, subst, ◌∙◌, length,
}
use testify.Models.{rus_tili, pedagogik, kasbiy, other, Section}
use testify.Exams.Repository.{in_range}
use testify.Exams.Validation.{is_seen, validate_test_completeness}
use testify.Exams.Validation.Complete.{position_of, validate-IsComplete, IsComplete}
use testify.Exams.Validation.Fields.{validate_question_fields}
use testify.Exams.Form.Cards.{no_entries}
use testify.Exams.Excel.Data.{
  Cell, no_value, text, boolean, whole, negative, other_value, Cells, cell_at, cells_of, Message,
  ParsedQuestion, section_of, texts_of, ParseResult, parsed_test, SectionCounts, no_counts,
  count_errors, file_errors, image_error, section_errors, RowResult,
}
use testify.Exams.Excel.Data
use testify.Exams.Excel.{
  stripped, is_missing, parse_has_image, build_question, missing_columns, value_errors,
  typed_errors, validate_row, row_of, read_rows, parse_rows, parse,
}
use testify.Exams.Excel.Rows.{
  placed, value_errors-IsPlaced, or_else-nil, message_if-nil, map-nil, row_of-IsTaken,
  validate_row-IsPlaced,
}

module _ (show : Cell → Text) (is_space : ℕ → Bool) (upper lower : Text → Text) where
  abbrev pub IsFilled : List Cell → ℕ → Type 0
  IsFilled row n = is_missing show is_space upper lower (cell_at n row) ≡ false

  -- The question that a row holds, by the nine columns of the file.
  pub record IsQuestionOf (row : List Cell) (q : ParsedQuestion) : Type 0 where
    pub filled : All (IsFilled row) (0 ∷ 1 ∷ 2 ∷ 3 ∷ 4 ∷ 5 ∷ 6 ∷ 7 ∷ [])
    pub section : q.section ≡ section_of (stripped show is_space upper lower (cell_at 0 row))
    pub position : cell_at 1 row ≡ whole q.position
    pub question_text : q.question_text ≡ stripped show is_space upper lower (cell_at 2 row)
    pub option_a : q.option_a ≡ stripped show is_space upper lower (cell_at 3 row)
    pub option_b : q.option_b ≡ stripped show is_space upper lower (cell_at 4 row)
    pub option_c : q.option_c ≡ stripped show is_space upper lower (cell_at 5 row)
    pub option_d : q.option_d ≡ stripped show is_space upper lower (cell_at 6 row)
    pub correct_option :
        q.correct_option ≡ upper (stripped show is_space upper lower (cell_at 7 row))
    pub has_image : parse_has_image show is_space upper lower (cell_at 8 row) ≡ some q.has_image
    pub no_image_yet : (q.image_file_id ≡ none) × (q.image_file_unique_id ≡ none)
    pub valid :
        validate_question_fields is_space q.section q.position
          (texts_of q)
          q.correct_option
          q.has_image
        ≡ []

  -- Each row holds its question, in order.
  abbrev pub IsQuestionsOf : List (List Cell) → List ParsedQuestion → Type 0
  IsQuestionsOf [] [] = Unit
  IsQuestionsOf [] (q ∷ questions) = ⊥
  IsQuestionsOf (row ∷ rows) [] = ⊥
  IsQuestionsOf (row ∷ rows) (q ∷ questions) = IsQuestionOf row q × IsQuestionsOf rows questions

  -- A readable file whose sheet holds these questions, which make a complete test.
  pub record IsFileOf (book : Option (Option (List (List Cell)))) (questions : List ParsedQuestion)
      : Type 0 where
    pub rows : List (List Cell)
    pub sheet : book ≡ some (some rows)
    pub each : IsQuestionsOf rows questions
    pub complete : validate_test_completeness (map placed questions) ≡ []

  no_zero : (section : Section) → in_range section 0 ≡ true → ⊥
  no_zero rus_tili h = ground arith
  no_zero pedagogik h = ground arith
  no_zero kasbiy h = ground arith
  no_zero (other name) h = ground arith

  typed_errors-nil :
      (c : Cells) (cell : Cell)
      → typed_errors show is_space upper lower c cell ≡ []
      → (n : ℕ) × (cell ≡ whole n) × (value_errors show is_space upper lower c n ≡ [])
  typed_errors-nil c (whole n) h = (n, refl, h)
  typed_errors-nil c (negative n) h =
      absurd (no_zero _ (value_errors-IsPlaced show is_space upper lower c 0 h).0)
  typed_errors-nil c no_value h = ground arith
  typed_errors-nil c (text s) h = ground arith
  typed_errors-nil c (boolean flag) h = ground arith
  typed_errors-nil c (other_value n) h = ground arith

  image_error-nil : (flag : Option Bool) → image_error flag ≡ [] → flag ≡ some (Data.flag_of flag)
  image_error-nil none h = ground arith
  image_error-nil (some flag) h = refl

  IsFilled-nil :
      (row : List Cell)
      → missing_columns show is_space upper lower (cells_of row) ≡ []
      → All (IsFilled row) (0 ∷ 1 ∷ 2 ∷ 3 ∷ 4 ∷ 5 ∷ 6 ∷ 7 ∷ [])
  IsFilled-nil row h =
      let h7 = no_entries h in
      let h6 = no_entries h7.0 in
      let h5 = no_entries h6.0 in
      let h4 = no_entries h5.0 in
      let h3 = no_entries h4.0 in
      let h2 = no_entries h3.0 in
      let h1 = no_entries h2.0 in
      (
        message_if-nil _ _ h1.0,
        (
          message_if-nil _ _ h1.1,
          (
            message_if-nil _ _ h2.1,
            (
              message_if-nil _ _ h3.1,
              (
                message_if-nil _ _ h4.1,
                (message_if-nil _ _ h5.1, (message_if-nil _ _ h6.1, (message_if-nil _ _ h7.1, tt))),
              ),
            ),
          ),
        ),
      )

  -- A row without errors holds the question that is built of it.
  pub row-IsQuestionOf :
      (row : List Cell)
      → let c = cells_of row in
        validate_row show is_space upper lower c ≡ []
        → IsQuestionOf row
            (build_question show is_space upper lower c (Data.position_of c.position))
  unfolding validate_row
  row-IsQuestionOf row h =
      let c = cells_of row in
      let (filled, typed) =
        or_else-nil (missing_columns show is_space upper lower c)
          (typed_errors show is_space upper lower c c.position) h in
      let (n, whole_n, values) = typed_errors-nil c c.position typed in
      let (image, fields) = no_entries values in
      rw whole_n (record {
        filled = IsFilled-nil row filled;
        section = refl;
        position = whole_n;
        question_text = refl;
        option_a = refl;
        option_b = refl;
        option_c = refl;
        option_d = refl;
        correct_option = refl;
        has_image = image_error-nil _ image;
        no_image_yet = (refl, refl);
        valid = map-nil _ _ fields;
      })

  missing-nil :
      (row : List Cell)
      → All (IsFilled row) (0 ∷ 1 ∷ 2 ∷ 3 ∷ 4 ∷ 5 ∷ 6 ∷ 7 ∷ [])
      → missing_columns show is_space upper lower (cells_of row) ≡ []
  missing-nil row (c0, (c1, (c2, (c3, (c4, (c5, (c6, (c7, _)))))))) =
      rw (c0, c1, c2, c3, c4, c5, c6, c7) refl

  without_image :
      (q : ParsedQuestion)
      → q.image_file_id ≡ none
      → q.image_file_unique_id ≡ none
      → record q { image_file_id = none; image_file_unique_id = none } ≡ q
  without_image q e f =
      ap (λ x. record q { image_file_id = x; image_file_unique_id = none }) (sym e)
      ∙ ap (λ y. record q { image_file_unique_id = y }) (sym f)

  -- A row that holds a question has no errors, and the question is built of it.
  pub IsQuestionOf-row :
      (row : List Cell) (q : ParsedQuestion)
      → IsQuestionOf row q
      → let c = cells_of row in
        (build_question show is_space upper lower c q.position ≡ q)
        × (validate_row show is_space upper lower c ≡ [])
  unfolding validate_row
  IsQuestionOf-row row q h =
      let c = cells_of row in
      let built : build_question show is_space upper lower c q.position ≡ q =
        rw
          (
            sym h.section,
            sym h.question_text,
            sym h.option_a,
            sym h.option_b,
            sym h.option_c,
            sym h.option_d,
            sym h.correct_option,
            h.has_image,
          )
          (without_image q h.no_image_yet.0 h.no_image_yet.1) in
      let fields =
        subst
          (λ b.
            validate_question_fields is_space b.section b.position (texts_of b) b.correct_option
              b.has_image
            ≡ [])
          (sym built) h.valid in
      let values : value_errors show is_space upper lower c q.position ≡ [] =
        rw (fields, h.has_image) refl in
      (built, rw (missing-nil row h.filled, h.position) values)
