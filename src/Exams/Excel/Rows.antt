-- ===== src/Exams/Excel/Rows.antt =====
-- What the rows of a spreadsheet without errors hold.
use testify.Common.{ℕ, Bool, true, false, some, Text, List, [], ◌∷◌, ◌≡◌, not, map, refl, arith}
use testify.Models.{Section, rus_tili, pedagogik, kasbiy, other}
use testify.Exams.Repository.{in_range, is_option}
use testify.Exams.Validation.{is_seen, Placed}
use testify.Exams.Validation.Fields.{
  Texts, validate_question_fields, is_valid_section, place_errors,
}
use testify.Exams.Form.Cards.{no_entries, complain-nil, not-false}
use testify.Exams.Excel.Data.{
  Cell, no_value, text, boolean, whole, negative, other_value, Cells, cell_at, cells_of, Message,
  unreadable, no_sheet, position_not_int, unknown_has_image, empty_column, field_message,
  wrong_row_count, position_used, wrong_section_rows, ParseError, ParsedQuestion, section_of, is_in,
  has_image_true, has_image_false, SectionCounts, add_section, message_if, RowResult, Collected,
  collect, ParseResult, parsed_test, parse_errors, result_of, flag_of, texts_of, image_error,
  or_else, valid_row, section_errors, no_counts, file_errors, count_errors,
}
use testify.Exams.Excel.Data
use testify.Exams.Excel.{
  row_of, value_errors, typed_errors, build_question, validate_row, missing_columns,
}

-- A question that the database takes.
abbrev pub IsPlaced : ParsedQuestion → Type 0
IsPlaced q = (in_range q.section q.position ≡ true) × (is_option q.correct_option ≡ true)

abbrev pub placed : ParsedQuestion → Placed
placed q = (q.section, q.position)

pub fields-IsPlaced :
    (is_space : ℕ → Bool) (section : Section) (position : ℕ) (texts : Texts) (correct : Text)
    (has_image : Bool)
    → validate_question_fields is_space section position texts correct has_image ≡ []
    → (in_range section position ≡ true) × (is_option correct ≡ true)
unfolding validate_question_fields
fields-IsPlaced is_space section position texts correct has_image h =
    let p0 = no_entries h in
    let p1 = no_entries p0.1 in
    let p2 = no_entries p1.1 in
    let p3 = no_entries p2.1 in
    let known = complain-nil _ _ _ p0.0 in
    let right = complain-nil _ _ _ p3.0 in
    (in_place section position known p1.0, not-false (is_option correct) right)
  where
    in_place :
        (section : Section) (position : ℕ)
        → not (is_valid_section section) ≡ false
        → place_errors section position ≡ []
        → in_range section position ≡ true
    in_place (other name) position known h = cc
    in_place rus_tili position known h = ground arith
    in_place pedagogik position known h = ground arith
    in_place kasbiy position known h = ground arith

pub or_else-nil : (xs ys : List Message) → or_else xs ys ≡ [] → (xs ≡ []) × (ys ≡ [])
or_else-nil [] ys h = (refl, h)
or_else-nil (m ∷ xs) ys h = ground arith

pub message_if-nil : (test : Bool) (m : Message) → message_if test m ≡ [] → test ≡ false
message_if-nil true m h = ground arith
message_if-nil false m h = refl

pub map-nil : {A B : Type 0} (f : A → B) (xs : List A) → map f xs ≡ [] → xs ≡ []
map-nil f [] h = refl
map-nil f (x ∷ xs) h = ground arith

module _ (show : Cell → Text) (is_space : ℕ → Bool) (upper lower : Text → Text) where
  pub value_errors-IsPlaced :
      (c : Cells) (position : ℕ)
      → value_errors show is_space upper lower c position ≡ []
      → IsPlaced (build_question show is_space upper lower c position)
  value_errors-IsPlaced c position h =
      let q = build_question show is_space upper lower c position in
      fields-IsPlaced is_space q.section position (texts_of q) q.correct_option q.has_image
        (map-nil _ _ (no_entries h).1)

  typed_errors-IsPlaced :
      (c : Cells) (cell : Cell)
      → typed_errors show is_space upper lower c cell ≡ []
      → IsPlaced (build_question show is_space upper lower c (Data.position_of cell))
  typed_errors-IsPlaced c (whole n) h = value_errors-IsPlaced c n h
  typed_errors-IsPlaced c (negative n) h = value_errors-IsPlaced c 0 h
  typed_errors-IsPlaced c no_value h = ground arith
  typed_errors-IsPlaced c (text s) h = ground arith
  typed_errors-IsPlaced c (boolean flag) h = ground arith
  typed_errors-IsPlaced c (other_value n) h = ground arith

  pub validate_row-IsPlaced :
      (c : Cells)
      → validate_row show is_space upper lower c ≡ []
      → IsPlaced (build_question show is_space upper lower c (Data.position_of c.position))
  unfolding validate_row
  validate_row-IsPlaced c h =
      typed_errors-IsPlaced c c.position
        (or_else-nil (missing_columns show is_space upper lower c)
          (typed_errors show is_space upper lower c c.position) h).1

  -- A round without errors took the row's question.
  pub record IsTaken (seen : List ℕ) (counts : SectionCounts) (q : ParsedQuestion) (r : RowResult)
      : Type 0 where
    pub question : r.question ≡ some q
    pub sound : IsPlaced q
    pub unseen : is_seen q.position seen ≡ false
    pub seen_after : r.seen ≡ q.position ∷ seen
    pub counts_after : r.counts ≡ add_section q.section counts

  pub row_of-IsTaken :
      (seen : List ℕ) (counts : SectionCounts) (c : Cells) (messages : List Message)
      → let q = build_question show is_space upper lower c (Data.position_of c.position) in
        (messages ≡ [] → IsPlaced q)
        → (row_of show is_space upper lower seen counts c messages).errors ≡ []
        → IsTaken seen counts q (row_of show is_space upper lower seen counts c messages)
  row_of-IsTaken seen counts c (m ∷ messages) f h = ground arith
  row_of-IsTaken seen counts c [] f h =
      let q = build_question show is_space upper lower c (Data.position_of c.position) in
      let fresh = message_if-nil (is_seen q.position seen) (position_used q.position) h in
      record {
        question = refl;
        sound = f refl;
        unseen = fresh;
        seen_after = rw fresh refl;
        counts_after = refl;
      }
