-- ===== src/Exams/Excel/Match/Parse.antt =====
-- The parser returns what the file holds, and nothing else.
use testify.Exams.Excel.Complete.{
  parse-IsComplete, IsRead, read_rows-IsRead, length-placed, result_of-parsed,
}
use testify.Common.{
  ℕ, Bool, false, Option, none, some, Text, List, [], ◌∷◌, ◌≡◌, ◌==◌, ◌+◌, All, Distinct, count,
  map, refl, arith, ap, sym, subst, ◌∙◌, length,
}
use testify.Exams.Validation.{is_seen}
use testify.Exams.Validation.Complete.{position_of, validate-IsComplete, IsComplete}
use testify.Exams.Form.Cards.{no_entries}
use testify.Exams.Excel.Data.{
  Cell, no_value, text, boolean, whole, negative, other_value, Cells, cell_at, cells_of, Message,
  ParsedQuestion, section_of, texts_of, ParseResult, parsed_test, SectionCounts, no_counts,
  count_errors, file_errors, image_error, section_errors, RowResult,
}
use testify.Exams.Excel.Data
use testify.Exams.Excel.{build_question, validate_row, row_of, read_rows, parse_rows, parse}
use testify.Exams.Excel.Rows.{placed, map-nil, row_of-IsTaken, validate_row-IsPlaced}
use testify.Exams.Excel.Match.{IsQuestionsOf, IsFileOf, row-IsQuestionOf, IsQuestionOf-row}

module _ (show : Cell → Text) (is_space : ℕ → Bool) (upper lower : Text → Text) where
  -- The loop's questions are those of the rows, where it finds no error.
  collected :
      (line : ℕ) (seen : List ℕ) (counts : SectionCounts) (rows : List (List Cell))
      → let all = read_rows show is_space upper lower line seen counts rows in
        all.errors ≡ [] → IsQuestionsOf show is_space upper lower rows all.questions
  unfolding read_rows
  collected line seen counts [] h = tt
  collected line seen counts (row ∷ rows) h =
      let c = cells_of row in
      let messages = validate_row show is_space upper lower c in
      let r = row_of show is_space upper lower seen counts c messages in
      let (clean, later) = no_entries h in
      let taken =
        row_of-IsTaken show is_space upper lower seen counts c messages
          (validate_row-IsPlaced show is_space upper lower c) (map-nil _ _ clean) in
      rw (Data.collect, taken.question)
        (
          row-IsQuestionOf show is_space upper lower row
              (no_messages seen counts c messages (map-nil _ _ clean)),
          collected (line + 1) r.seen r.counts rows later,
        )
    where
      no_messages :
          (seen : List ℕ) (counts : SectionCounts) (c : Cells) (messages : List Message)
          → (row_of show is_space upper lower seen counts c messages).errors ≡ []
          → messages ≡ []
      no_messages seen counts c [] h = refl
      no_messages seen counts c (m ∷ messages) h = ground arith

  unseen-add :
      (position : ℕ) (seen : List ℕ) (questions : List ParsedQuestion)
      → count (λ y. position_of y == position) (map placed questions) ≡ 0
      → All (λ q. is_seen q.position seen ≡ false) questions
      → All (λ q. is_seen q.position (position ∷ seen) ≡ false) questions
  unfolding count
  unseen-add position seen [] apart unseen = tt
  unseen-add position seen (q ∷ questions) apart unseen =
      let first = unseen.0 in
      (
        ground (arith, apart, first),
        unseen-add position seen questions (ground (arith, apart)) unseen.1,
      )

  -- Where each row holds a question and no position is seen twice, the loop finds no error.
  IsQuestionsOf-read_rows :
      (line : ℕ) (seen : List ℕ) (counts : SectionCounts) (rows : List (List Cell))
      (questions : List ParsedQuestion)
      → IsQuestionsOf show is_space upper lower rows questions
      → Distinct position_of (map placed questions)
      → All (λ q. is_seen q.position seen ≡ false) questions
      → let all = read_rows show is_space upper lower line seen counts rows in
        (all.questions ≡ questions) × (all.errors ≡ [])
  unfolding read_rows
  IsQuestionsOf-read_rows line seen counts [] [] h apart unseen = (refl, refl)
  IsQuestionsOf-read_rows line seen counts [] (q ∷ questions) h apart unseen = absurd h
  IsQuestionsOf-read_rows line seen counts (row ∷ rows) [] h apart unseen = absurd h
  IsQuestionsOf-read_rows line seen counts (row ∷ rows) (q ∷ questions) h apart unseen =
      let (built, clean) = IsQuestionOf-row show is_space upper lower row q h.0 in
      let position : Data.position_of (cell_at 1 row) ≡ q.position = rw h.0.position refl in
      let c = cells_of row in
      let taken : RowResult = record {
        question = some q;
        errors = [];
        seen = q.position ∷ seen;
        counts = Data.add_section q.section counts;
      } in
      let round : row_of show is_space upper lower seen counts c
            (validate_row show is_space upper lower c)
          ≡ taken =
        rw clean (
          subst (λ b. Data.valid_row seen counts b ≡ taken)
            (sym (ap (build_question show is_space upper lower c) position ∙ built))
            (rw unseen.0 refl)) in
      let (same, later) =
        IsQuestionsOf-read_rows (line + 1) (q.position ∷ seen) (Data.add_section q.section counts)
          rows questions h.1 apart.1 (unseen-add q.position seen questions apart.0 unseen.1) in
      subst
        (λ r.
          let all =
            Data.collect line r
              (read_rows show is_space upper lower (line + 1) r.seen r.counts rows) in
          (all.questions ≡ q ∷ questions) × (all.errors ≡ []))
        (sym round) (ap (λ qs. q ∷ qs) same, later)

  none_seen : (questions : List ParsedQuestion) → All (λ q. is_seen q.position [] ≡ false) questions
  none_seen [] = tt
  none_seen (q ∷ questions) = (refl, none_seen questions)

  parsed-IsQuestionsOf :
      (rows : List (List Cell)) (questions : List ParsedQuestion)
      → parse_rows show is_space upper lower rows ≡ parsed_test questions
      → IsQuestionsOf show is_space upper lower rows questions
  unfolding parse_rows
  parsed-IsQuestionsOf rows questions h =
      let all = read_rows show is_space upper lower 2 [] no_counts rows in
      let (clean, same) = result_of-parsed _ all.questions questions h in
      let (counted, later) = no_entries clean in
      let (none_left, sections) = no_entries later in
      subst (IsQuestionsOf show is_space upper lower rows) same
        (collected 2 [] no_counts rows none_left)

  -- What the parser returns is what the file holds.
  pub parse-IsFileOf :
      (book : Option (Option (List (List Cell)))) (questions : List ParsedQuestion)
      → parse show is_space upper lower book ≡ parsed_test questions
      → IsFileOf show is_space upper lower book questions
  unfolding parse
  parse-IsFileOf none questions h = cc
  parse-IsFileOf (some none) questions h = cc
  parse-IsFileOf (some (some rows)) questions h = record {
    rows = rows;
    sheet = refl;
    each = parsed-IsQuestionsOf rows questions h;
    complete =
        (validate-IsComplete (map placed questions)).1
          (parse-IsComplete show is_space upper lower (some (some rows)) questions h).0;
  }

  IsFileOf-rows :
      (rows : List (List Cell)) (questions : List ParsedQuestion)
      → IsQuestionsOf show is_space upper lower rows questions
      → IsComplete (map placed questions)
      → parse_rows show is_space upper lower rows ≡ parsed_test questions
  unfolding parse_rows
  IsFileOf-rows rows questions each complete =
      let all = read_rows show is_space upper lower 2 [] no_counts rows in
      let (same, clean) =
        IsQuestionsOf-read_rows 2 [] no_counts rows questions each complete.positions
          (none_seen questions) in
      let read =
        subst
          (λ qs.
            IsRead (length rows) [] no_counts
              (record { questions = qs; errors = all.errors; counts = all.counts }))
          same (read_rows-IsRead show is_space upper lower 2 [] no_counts rows clean) in
      let total = length-placed questions in
      let fifty : length rows ≡ 50 = omega (arith, read.rows, complete.fifty, total) in
      let r : all.counts.rus_tili_count ≡ 35 =
        omega (arith, read.rus_tili_count, complete.rus_tili_count) in
      let p : all.counts.pedagogik_count ≡ 10 =
        omega (arith, read.pedagogik_count, complete.pedagogik_count) in
      let k : all.counts.kasbiy_count ≡ 5 =
        omega (arith, read.kasbiy_count, complete.kasbiy_count) in
      rw (fifty, clean, r, p, k, same) refl

  -- What a file holds is what the parser returns.
  pub IsFileOf-parse :
      (book : Option (Option (List (List Cell)))) (questions : List ParsedQuestion)
      → IsFileOf show is_space upper lower book questions
      → parse show is_space upper lower book ≡ parsed_test questions
  unfolding parse
  IsFileOf-parse book questions h = rw h.sheet (
      IsFileOf-rows h.rows questions h.each
        ((validate-IsComplete (map placed questions)).0 h.complete))
