-- ===== src/Exams/Service/Published.antt =====
-- The questions of a test that is no longer a draft.
use testify.Exams.Excel.Draft.{create_draft_from_excel, store_parsed}
use testify.Exams.Excel.Data.{ParseResult, parsed_test, parse_errors}
use testify.Exams.Repository
use testify.Exams.Service.Authoring.{
  Call, create_call, cancel_call, title_call, replace_call, duplicate_call, image_call,
  publish_call, perform, perform_cases, upload_call, after-uploaded_draft,
}
use testify.Attempts.Repository.{list_by_test}
use testify.Common.{
  ℕ, ◌≡◌, ◌≤◌, ◌==◌, List, [], ◌∷◌, Option, none, some, Bool, true, false, Text, count, find,
  update, delete, insert, select, refl, arith, Bool-cases, Option-cases, inl, inr, map, ◌++◌,
  count-and_le, subst, sym, ==_iff, ap, take,
}
use testify.Effects.{after, in_transaction}
use testify.Models.{Test, Question, Database, is_draft}
use testify.Exams.Repository.{
  QuestionDraft, has_id, is_draft_row, is_of_test, bulk_create, new_question, mark_active,
  mark_archived, get_active, create_draft, image_at, delete_draft, delete_by_test, set_image,
  get_by_id, is_image_question, new_draft,
}
use testify.Exams.Service.{
  publish, create_empty_draft, copy_to_draft, add_questions, copy_suffix, draft_of, cancel_draft,
  replace_draft_questions, attach_question_image, carry, update_title, duplicate_to_draft, title_or,
}

module _ {A : Type 0} (p q : A → Bool) where
  select-insert_other : (a : A) (xs : List A) → p a ≡ false → select p (insert a xs) ≡ select p xs
  unfolding select insert
  select-insert_other a [] apart = rw apart refl
  select-insert_other a (x ∷ xs) apart = ground (arith, select-insert_other a xs apart)

  select-delete_other :
      (xs : List A) → ((x : A) → q x ≡ true → p x ≡ false) → select p (delete q xs) ≡ select p xs
  unfolding select delete
  select-delete_other [] apart = refl
  select-delete_other (x ∷ xs) apart = elim (Bool-cases (q x)) [
    | inl e ↦ rw e (ground (arith, apart x e, select-delete_other xs apart))
    | inr e ↦ rw e (ground (arith, select-delete_other xs apart))
  ]

  select-update_other :
      (f : A → A) (xs : List A)
      → ((x : A) → q x ≡ true → p x ≡ false)
      → ((x : A) → p (f x) ≡ p x)
      → select p (update q f xs) ≡ select p xs
  unfolding select update
  select-update_other f [] apart keep = refl
  select-update_other f (x ∷ xs) apart keep = elim (Bool-cases (q x)) [
    | inl e ↦ rw e (ground (arith, apart x e, keep x, select-update_other f xs apart keep))
    | inr e ↦ rw e (ground (arith, select-update_other f xs apart keep))
  ]

-- A test whose row is unique and no draft has no draft row.
no_draft_row :
    (t : ℕ) (tests : List Test) (row : Test)
    → count (has_id t) tests ≤ 1
    → find (has_id t) tests ≡ some row
    → is_draft row.status ≡ false
    → count (is_draft_row t) tests ≡ 0
unfolding count find
no_draft_row t [] row single found done = refl
no_draft_row t (x ∷ tests) row single found done =
    ground (arith, count-and_le (has_id t) (λ y. is_draft y.status) tests, no_draft_row t tests row)

module _ (t : ℕ) where
  abbrev questions_of : Database → List Question
  questions_of db = select (is_of_test t) db.questions

  questions-bulk_create :
      (row_id : ℕ → ℕ) (id : ℕ) (drafts : List QuestionDraft) (db db' : Database)
      → (id == t) ≡ false
      → bulk_create row_id id drafts db ≡ some db'
      → questions_of db' ≡ questions_of db
  unfolding bulk_create
  questions-bulk_create row_id id [] db db' apart h = ground arith
  questions-bulk_create row_id id (d ∷ drafts) db db' apart h =
      let row = new_question (row_id d.position) id d in
      ground (
        arith,
        questions-bulk_create row_id id drafts (record db { questions = insert row db.questions })
            db' apart,
        select-insert_other (is_of_test t) (is_of_test t) row db.questions apart,
      )

  questions-add_questions :
      (row_id : ℕ → ℕ) (id : ℕ) (drafts : List QuestionDraft) (db : Database)
      → (id == t) ≡ false
      → questions_of (after (add_questions row_id id drafts) db) ≡ questions_of db
  questions-add_questions row_id id drafts db apart =
      elim (Option-cases (bulk_create row_id id drafts db)) [
        | inl refused ↦ ground (arith, refused)
        | inr (db', done) ↦
            ground (arith, done, questions-bulk_create row_id id drafts db db' apart done)
      ]

  questions-copy :
      (row_id : ℕ → ℕ) (id duration : ℕ) (default_title : Text) (admin_id : Option ℕ) (source : ℕ)
      (found : Option Test) (db : Database)
      → (id == t) ≡ false
      → questions_of
          (after (copy_to_draft row_id id duration default_title admin_id source found) db)
        ≡ questions_of db
  unfolding copy_to_draft create_empty_draft create_draft
  questions-copy row_id id duration default_title admin_id source none db apart = refl
  questions-copy row_id id duration default_title admin_id source (some test) db apart =
      let title = take 200 (test.title ++ copy_suffix) in
      let created = after (create_empty_draft id duration default_title admin_id (some title)) db in
      let drafts = map draft_of (list_by_test source created) in
      ground (arith, questions-add_questions row_id id drafts created apart)

  questions-store_parsed :
      (row_id : ℕ → ℕ) (id duration : ℕ) (default_title : Text) (admin_id : Option ℕ)
      (title : Option Text) (r : ParseResult) (db : Database)
      → (id == t) ≡ false
      → questions_of (after (store_parsed row_id id duration default_title admin_id title r) db)
        ≡ questions_of db
  unfolding create_draft
  questions-store_parsed row_id id duration default_title admin_id title (parse_errors errors) db
        apart =
      refl
  questions-store_parsed row_id id duration default_title admin_id title (parsed_test questions) db
        apart =
      let test = new_draft id (title_or default_title title) duration admin_id in
      rw (after-uploaded_draft test (add_questions row_id id questions (create_draft test db)))
        (questions-add_questions row_id id questions (create_draft test db) apart)

  questions-publish :
      (draft_id now now' : ℕ) (db : Database)
      → (after (publish draft_id now now') db).questions ≡ db.questions
  unfolding publish mark_active mark_archived
  questions-publish draft_id now now' db = elim (Option-cases (get_active db)) [
    | inl idle ↦ ground (arith, idle)
    | inr (current, busy) ↦ ground (arith, busy)
  ]

  module _ (db : Database) (row : Test) (single : count (has_id t) db.tests ≤ 1)
      (found : get_by_id t db ≡ some row) (done : is_draft row.status ≡ false) where
    questions-cancel : (id : ℕ) → questions_of (after (cancel_draft id) db) ≡ questions_of db
    unfolding cancel_draft delete_draft get_by_id
    questions-cancel id = elim (Bool-cases (id == t)) [
      | inl same ↦ ground (
        arith,
        subst (λ n. count (is_draft_row n) db.tests ≡ 0) (sym ((==_iff id t).0 same))
            (no_draft_row t db.tests row single found done),
      )
      | inr apart ↦ ground (
        arith,
        select-delete_other (is_of_test t) (is_of_test id) db.questions λ q e. ground arith,
      )
    ]

    questions-replace :
        (row_id : ℕ → ℕ) (id : ℕ) (drafts : List QuestionDraft)
        → questions_of (after (replace_draft_questions row_id id drafts) db) ≡ questions_of db
    unfolding replace_draft_questions delete_by_test
    questions-replace row_id id drafts = elim (Bool-cases (id == t)) [
      | inl same ↦
          ground (arith, subst (λ n. get_by_id n db ≡ some row) (sym ((==_iff id t).0 same)) found)
      | inr apart ↦
          let carried = map (λ d. carry (image_at id d.position db) d) drafts in
          ground (
            arith,
            questions-add_questions row_id id carried (delete_by_test id db) apart,
            select-delete_other (is_of_test t) (is_of_test id) db.questions λ q e. ground arith,
          )
    ]

    questions-title :
        (strip : Text → Text) (id : ℕ) (title : Text)
        → questions_of (after (update_title strip id title) db) ≡ questions_of db
    unfolding update_title Repository.update_title
    questions-title strip id title = ground arith

    questions-image :
        (id position : ℕ) (file_id file_unique_id : Text)
        → (id == t) ≡ false
        → questions_of (after (attach_question_image id position file_id file_unique_id) db)
          ≡ questions_of db
    unfolding attach_question_image set_image
    questions-image id position file_id file_unique_id apart =
        select-update_other (is_of_test t) (is_image_question id position) _ db.questions
          (λ q e. ground arith) (λ q. refl)

-- The request inserts a test with this id, or attaches an image to a question of this test.
abbrev pub touches : ℕ → Call → Bool
touches t (create_call id duration default_title admin_id title) = id == t
touches t (duplicate_call row_id id duration default_title admin_id source) = id == t
touches t
      (upload_call show is_space upper lower row_id id duration default_title admin_id title book) =
    id == t
touches t (image_call id position file_id file_unique_id) = id == t
touches t _ = false

-- The questions of a test that is not a draft stay as they are under every authoring request,
-- except where an image is attached to one of them or a new row takes the test's id. Ids are unique.
pub perform-published :
    (t : ℕ) (row : Test) (c : Call) (db : Database)
    → count (has_id t) db.tests ≤ 1
    → get_by_id t db ≡ some row
    → is_draft row.status ≡ false
    → touches t c ≡ false
    → select (is_of_test t) (perform c db).questions ≡ select (is_of_test t) db.questions
unfolding perform
perform-published t row (create_call id duration default_title admin_id title) db single found done
      apart =
    unfold in_transaction create_empty_draft create_draft in refl
perform-published t row (cancel_call id) db single found done apart =
    perform_cases (λ d. questions_of t d ≡ questions_of t db) (cancel_draft id) db refl
      (λ a e. questions-cancel t db row single found done id)
perform-published t row (title_call strip id title) db single found done apart =
    perform_cases (λ d. questions_of t d ≡ questions_of t db) (update_title strip id title) db refl
      (λ a e. questions-title t db row single found done strip id title)
perform-published t row (replace_call row_id id drafts) db single found done apart =
    perform_cases (λ d. questions_of t d ≡ questions_of t db)
      (replace_draft_questions row_id id drafts) db refl
      (λ a e. questions-replace t db row single found done row_id id drafts)
perform-published t row (duplicate_call row_id id duration default_title admin_id source) db single
      found done apart =
    perform_cases (λ d. questions_of t d ≡ questions_of t db)
      (duplicate_to_draft row_id id duration default_title admin_id source) db refl
      (λ a e.
        unfold duplicate_to_draft in
        questions-copy t row_id id duration default_title admin_id source (get_by_id source db) db
          apart)
perform-published t row (image_call id position file_id file_unique_id) db single found done apart =
    perform_cases (λ d. questions_of t d ≡ questions_of t db)
      (attach_question_image id position file_id file_unique_id) db refl
      (λ a e. questions-image t db row single found done id position file_id file_unique_id apart)
perform-published t row (publish_call id now now') db single found done apart =
    perform_cases (λ d. questions_of t d ≡ questions_of t db) (publish id now now') db refl
      (λ a e. ap (select (is_of_test t)) (questions-publish t id now now' db))
perform-published t row
      (upload_call show is_space upper lower row_id id duration default_title admin_id title book)
      db single found done apart =
    perform_cases (λ d. questions_of t d ≡ questions_of t db)
      (create_draft_from_excel show is_space upper lower row_id id duration default_title admin_id
        title book)
      db refl
      (λ a e.
        unfold create_draft_from_excel in
        questions-store_parsed t row_id id duration default_title admin_id title _ db apart)
