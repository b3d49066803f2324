-- ===== src/Exams/Form/Stored.antt =====
-- What the two writes of `save_draft` store.
use testify.Utils.Strip.{strip, is_empty}
use testify.Exams.Repository
use testify.Common.{
  ℕ, Bool, List, [], ◌∷◌, ◌++◌, ◌≡◌, true, some, none, Option, Text, map, count, delete, update,
  All, Distinct, refl, arith, ◌==◌, ◌≤◌, ltb, ◌||◌, length, false, find-update,
}
use testify.Effects.{ok}
use testify.Models.{Question, Database, Test, is_draft}
use testify.Exams.Repository.{
  QuestionDraft, is_valid_row, is_at, is_of_test, get_by_id, image_at, in_range, is_option, has_id,
  is_draft_row,
}
use testify.Exams.Repository
use testify.Exams.Repository.Bulk.{draft_position, row_of, bulk_create-rows}
use testify.Exams.Service.{
  carry, replace_draft_questions, is_draft_test, add_questions, update_title,
}
use testify.Exams.Form.{ParsedTestForm, title_errors}
use testify.Exams.Form.Cards.{IsSound}
use testify.Exams.Form.Loop.{IsFrom}

count-delete_same :
    {A : Type 0} (p q : A → Bool) (xs : List A)
    → ((x : A) → q x ≡ true → p x ≡ true)
    → count q (delete p xs) ≡ 0
unfolding count delete
count-delete_same p q [] sub = refl
count-delete_same p q (x ∷ xs) sub =
    let rest = count-delete_same p q xs sub in ground (arith, sub x, rest)

-- A draft of the form with the image that its position had.
abbrev pub carried : ℕ → Database → QuestionDraft → QuestionDraft
carried test_id db d = carry (image_at test_id d.position db) d

carry-position : (old : Option Question) (d : QuestionDraft) → (carry old d).position ≡ d.position
carry-position none d = refl
carry-position (some old) d = ground arith

carry-is_valid_row :
    (is_space : ℕ → Bool) (row_id : ℕ → ℕ) (test_id : ℕ) (old : Option Question) (d : QuestionDraft)
    → IsSound is_space d
    → is_valid_row (row_of row_id test_id (carry old d)) ≡ true
unfolding is_valid_row
carry-is_valid_row is_space row_id test_id none d sound =
    let placed = sound.placed in let correct = sound.correct in ground (arith, placed, correct)
carry-is_valid_row is_space row_id test_id (some old) d sound =
    let placed = sound.placed in let correct = sound.correct in ground (arith, placed, correct)

-- `update_title` on the row of the test.
abbrev pub retitled : ℕ → Text → Database → Database
retitled test_id title db = record db {
  tests = update (is_draft_row test_id) (λ t. record t { title = title }) db.tests;
}

-- The database after a form was saved.
abbrev pub saved : (ℕ → ℕ) → ℕ → ParsedTestForm → Database → Database
saved row_id test_id parsed db = record (retitled test_id parsed.title db) {
  questions =
      delete (is_of_test test_id) db.questions
      ++ map (row_of row_id test_id) (map (carried test_id db) parsed.drafts);
}

module _ (is_space : ℕ → Bool) (row_id : ℕ → ℕ) (test_id : ℕ) (db : Database) where
  count-carried :
      (pos : ℕ) (drafts : List QuestionDraft)
      → count (λ d. draft_position d == pos) (map (carried test_id db) drafts)
        ≡ count (λ d. draft_position d == pos) drafts
  unfolding count
  count-carried pos [] = refl
  count-carried pos (d ∷ drafts) =
      let same = carry-position (image_at test_id d.position db) d in
      rw (same, count-carried pos drafts) refl

  carried-Distinct :
      (drafts : List QuestionDraft)
      → Distinct draft_position drafts
      → Distinct draft_position (map (carried test_id db) drafts)
  carried-Distinct [] h = tt
  carried-Distinct (d ∷ drafts) h =
      let same = carry-position (image_at test_id d.position db) d in
      (rw (same, count-carried d.position drafts) h.0, carried-Distinct drafts h.1)

  carried-valid :
      (pos : ℕ) (drafts : List QuestionDraft)
      → All (λ d. IsSound is_space d × (pos ≤ d.position)) drafts
      → All (λ d. is_valid_row (row_of row_id test_id d) ≡ true) (map (carried test_id db) drafts)
  carried-valid pos [] h = tt
  carried-valid pos (d ∷ drafts) h = (
    carry-is_valid_row is_space row_id test_id (image_at test_id d.position db) d h.0.0,
    carried-valid pos drafts h.1,
  )

  -- The rows of the test were deleted, so every position is free.
  free_positions :
      (drafts : List QuestionDraft)
      → All
          (λ d. count (is_at test_id d.position) (delete (is_of_test test_id) db.questions) ≡ 0)
          drafts
  free_positions [] = tt
  free_positions (d ∷ drafts) = (
    count-delete_same (is_of_test test_id) (is_at test_id d.position) db.questions
        (λ q e. ground (arith, e)),
    free_positions drafts,
  )

  pub replace_draft_questions-rows :
      (parsed : List QuestionDraft)
      → is_draft_test (get_by_id test_id db) ≡ true
      → IsFrom is_space 1 parsed
      → replace_draft_questions row_id test_id parsed db ≡ (
        ok tt,
        record db {
          questions =
              delete (is_of_test test_id) db.questions
              ++ map (row_of row_id test_id) (map (carried test_id db) parsed);
        },
      )
  unfolding replace_draft_questions IsFrom Repository.delete_by_test
  replace_draft_questions-rows parsed drafting from =
      rw
        (
          drafting,
          add_questions,
          bulk_create-rows row_id test_id (map (carried test_id db) parsed)
              (Repository.delete_by_test test_id db) (carried-valid 1 parsed from.0)
              (carried-Distinct parsed from.1) (free_positions (map (carried test_id db) parsed)),
        )
        refl

  title_fits :
      (title : Text) → title_errors title ≡ [] → (is_empty title || ltb 200 (length title)) ≡ false
  title_fits title h = ground (arith, h)

  -- A form without errors has a title that `update_title` takes.
  pub title_errors-nil :
      (title : Text)
      → strip is_space title ≡ title
      → title_errors title ≡ []
      → update_title (strip is_space) test_id title db
        ≡ (ok (ltb 0 (count (is_draft_row test_id) db.tests)), retitled test_id title db)
  unfolding update_title Repository.update_title
  title_errors-nil title stripped h = rw (stripped, title_fits title h) refl

  pub retitled-is_draft_test :
      (title : Text) (test : Test)
      → get_by_id test_id db ≡ some test
      → is_draft test.status ≡ true
      → is_draft_test (get_by_id test_id (retitled test_id title db)) ≡ true
  unfolding get_by_id
  retitled-is_draft_test title test found drafting =
      rw
        (
          find-update (is_draft_row test_id) (has_id test_id) (λ t. record t { title = title })
              db.tests (λ t. refl),
          found,
        )
        (ground (arith, drafting))
