-- ===== src/Exams/Service/Authoring.antt =====
-- The authoring requests, each one transaction, in any order.
use testify.Exams.Excel.Draft.{create_draft_from_excel, store_parsed, uploaded_draft}
use testify.Exams.Excel.Data.{Cell, ParseResult, parsed_test, parse_errors}
use testify.Attempts.Repository.{list_by_test}
use testify.Common.{
  ℕ, ◌≡◌, ◌≤◌, List, [], ◌∷◌, Option, none, some, Bool, Text, count, delete, insert, refl, arith,
  Option-cases, inl, inr, count-update, count-insert, map, ◌++◌, take, Distinct,
}
use testify.Effects.{
  Action, Result-cases, ok, outcome, after, in_transaction, Result, err, publish_conflict,
}
use testify.Models.{Test, Database}
use testify.Exams.Repository
use testify.Exams.Repository.{
  QuestionDraft, has_id, is_draft_row, is_active_row, get_by_id, bulk_create, new_draft,
  create_draft, delete_draft, delete_by_test, set_image, image_at,
}
use testify.Exams.Service.{
  publish, create_empty_draft, cancel_draft, update_title, replace_draft_questions,
  duplicate_to_draft, copy_to_draft, attach_question_image, add_questions, title_or, carry,
  copy_suffix, draft_of,
}
use testify.Exams.Service.Publish.{publish_steps, count_active-update, middle, publish-no_conflict}

pub data Call : Type 0 where
  create_call : ℕ → ℕ → Text → Option ℕ → Option Text → Call
  cancel_call : ℕ → Call
  title_call : (Text → Text) → ℕ → Text → Call
  replace_call : (ℕ → ℕ) → ℕ → List QuestionDraft → Call
  duplicate_call : (ℕ → ℕ) → ℕ → ℕ → Text → Option ℕ → ℕ → Call
  image_call : ℕ → ℕ → Text → Text → Call
  publish_call : ℕ → ℕ → ℕ → Call
  upload_call :
      (Cell → Text)
      → (ℕ → Bool)
      → (Text → Text)
      → (Text → Text)
      → (ℕ → ℕ)
      → ℕ
      → ℕ
      → Text
      → Option ℕ
      → Option Text
      → Option (Option (List (List Cell)))
      → Call

-- The database after a request: an exception rolls it back.
unfoldable pub perform : Call → Database → Database
unfolding in_transaction
perform (create_call id duration default_title admin_id title) =
    after (in_transaction (create_empty_draft id duration default_title admin_id title))
perform (cancel_call draft_id) = after (in_transaction (cancel_draft draft_id))
perform (title_call strip draft_id title) =
    after (in_transaction (update_title strip draft_id title))
perform (replace_call row_id draft_id drafts) =
    after (in_transaction (replace_draft_questions row_id draft_id drafts))
perform (duplicate_call row_id id duration default_title admin_id source) =
    after (in_transaction (duplicate_to_draft row_id id duration default_title admin_id source))
perform (image_call test_id position file_id file_unique_id) =
    after (in_transaction (attach_question_image test_id position file_id file_unique_id))
perform (publish_call draft_id now now') = after (in_transaction (publish draft_id now now'))
perform
      (upload_call show is_space upper lower row_id id duration default_title admin_id title book) =
    after (
      in_transaction (
        create_draft_from_excel show is_space upper lower row_id id duration default_title admin_id
          title book))

-- The request ends in a `PublishConflictError`: the unique index refused its activation.
abbrev pub IsConflict : Call → Database → Type 0
IsConflict (publish_call draft_id now now') db =
    outcome (publish draft_id now now') db ≡ err publish_conflict
IsConflict _ db = ⊥

-- What a request leaves: the database, or what its action leaves where it returns.
pub perform_cases :
    {A : Type 0} (P : Database → Type 0) (m : Action Database A) (db : Database)
    → P db
    → ((a : A) → outcome m db ≡ ok a → P (after m db))
    → P (after (in_transaction m) db)
unfolding in_transaction
perform_cases P m db before done = elim (Result-cases (outcome m db)) [
  | inl (a, e) ↦ rw (e, after, in_transaction) (done a e)
  | inr (x, e) ↦ rw (e, after, in_transaction) before
]

tests-bulk_create :
    (row_id : ℕ → ℕ) (test_id : ℕ) (drafts : List QuestionDraft) (db db' : Database)
    → bulk_create row_id test_id drafts db ≡ some db'
    → db'.tests ≡ db.tests
unfolding bulk_create
tests-bulk_create row_id test_id [] db db' h = ground arith
tests-bulk_create row_id test_id (d ∷ drafts) db db' h = ground (
  arith,
  tests-bulk_create row_id test_id drafts
      (record db {
        questions = insert (Repository.new_question (row_id d.position) test_id d) db.questions;
      })
      db',
)

count-delete_le : (p q : Test → Bool) (tests : List Test) → count q (delete p tests) ≤ count q tests
unfolding count delete
count-delete_le p q [] = omega arith
count-delete_le p q (t ∷ tests) = ground (arith, count-delete_le p q tests)

abbrev IsSingle : Database → Type 0
IsSingle db = count is_active_row db.tests ≤ 1

IsSingle-add_questions :
    (row_id : ℕ → ℕ) (test_id : ℕ) (drafts : List QuestionDraft) (db : Database)
    → IsSingle db
    → IsSingle (after (add_questions row_id test_id drafts) db)
IsSingle-add_questions row_id test_id drafts db h =
    elim (Option-cases (bulk_create row_id test_id drafts db)) [
      | inl refused ↦ ground (arith, refused)
      | inr (db', done) ↦ ground (arith, done, tests-bulk_create row_id test_id drafts db db' done)
    ]

IsSingle-create :
    (id duration : ℕ) (default_title : Text) (admin_id : Option ℕ) (title : Option Text)
    (db : Database)
    → IsSingle db
    → IsSingle (after (create_empty_draft id duration default_title admin_id title) db)
unfolding create_empty_draft create_draft count
IsSingle-create id duration default_title admin_id title db h = omega (
  arith,
  count-insert is_active_row (new_draft id (title_or default_title title) duration admin_id)
      db.tests,
)

IsSingle-cancel : (id : ℕ) (db : Database) → IsSingle db → IsSingle (after (cancel_draft id) db)
unfolding cancel_draft delete_draft
IsSingle-cancel id db h = omega (arith, count-delete_le (is_draft_row id) is_active_row db.tests)

IsSingle-update_title :
    (strip : Text → Text) (id : ℕ) (title : Text) (db : Database)
    → IsSingle db
    → IsSingle (after (update_title strip id title) db)
unfolding update_title Repository.update_title
IsSingle-update_title strip id title db h = ground (
  arith,
  count-update (is_draft_row id) is_active_row (λ t. record t { title = strip title }) db.tests
      (λ x e. refl),
)

IsSingle-replace :
    (row_id : ℕ → ℕ) (id : ℕ) (drafts : List QuestionDraft) (db : Database)
    → IsSingle db
    → IsSingle (after (replace_draft_questions row_id id drafts) db)
unfolding replace_draft_questions delete_by_test
IsSingle-replace row_id id drafts db h =
    let carried = map (λ d. carry (image_at id d.position db) d) drafts in
    ground (arith, IsSingle-add_questions row_id id carried (delete_by_test id db) h)

IsSingle-copy :
    (row_id : ℕ → ℕ) (id duration : ℕ) (default_title : Text) (admin_id : Option ℕ) (source : ℕ)
    (found : Option Test) (db : Database)
    → IsSingle db
    → IsSingle (after (copy_to_draft row_id id duration default_title admin_id source found) db)
unfolding copy_to_draft create_empty_draft
IsSingle-copy row_id id duration default_title admin_id source none db h = h
IsSingle-copy row_id id duration default_title admin_id source (some test) db h =
    let title = take 200 (test.title ++ copy_suffix) in
    let created = after (create_empty_draft id duration default_title admin_id (some title)) db in
    let drafts = map draft_of (list_by_test source created) in
    let single = IsSingle-create id duration default_title admin_id (some title) db h in
    elim (Option-cases (bulk_create row_id id drafts created)) [
      | inl refused ↦ ground (arith, refused, single)
      | inr (db', done) ↦
          ground (arith, done, single, tests-bulk_create row_id id drafts created db' done)
    ]

IsSingle-publish :
    (draft_id now now' : ℕ) (db : Database) (t : Test)
    → outcome (publish draft_id now now') db ≡ ok t
    → IsSingle (after (publish draft_id now now') db)
IsSingle-publish draft_id now now' db t h =
    let (images, one_draft, none_active, written, found) = publish_steps draft_id now now' db t h in
    let rows = (middle draft_id now now' db).tests in
    rw written (omega (arith, count_active-update draft_id now' rows, one_draft, none_active))

pub after-uploaded_draft :
    (test : Test) (r : Result Unit × Database) → (uploaded_draft test r).1 ≡ r.1
after-uploaded_draft test (ok u, db) = refl
after-uploaded_draft test (err e, db) = refl

IsSingle-store_parsed :
    (row_id : ℕ → ℕ) (id duration : ℕ) (default_title : Text) (admin_id : Option ℕ)
    (title : Option Text) (r : ParseResult) (db : Database)
    → IsSingle db
    → IsSingle (after (store_parsed row_id id duration default_title admin_id title r) db)
unfolding create_draft count
IsSingle-store_parsed row_id id duration default_title admin_id title (parse_errors errors) db h = h
IsSingle-store_parsed row_id id duration default_title admin_id title (parsed_test questions) db h =
    let test = new_draft id (title_or default_title title) duration admin_id in
    rw (after-uploaded_draft test (add_questions row_id id questions (create_draft test db))) (
      IsSingle-add_questions row_id id questions (create_draft test db)
        (omega (arith, count-insert is_active_row test db.tests)))

perform-IsSingle : (c : Call) (db : Database) → IsSingle db → IsSingle (perform c db)
unfolding perform
perform-IsSingle (create_call id duration default_title admin_id title) db h =
    perform_cases IsSingle (create_empty_draft id duration default_title admin_id title) db h
      λ a e. IsSingle-create id duration default_title admin_id title db h
perform-IsSingle (cancel_call draft_id) db h =
    perform_cases IsSingle (cancel_draft draft_id) db h λ a e. IsSingle-cancel draft_id db h
perform-IsSingle (title_call strip draft_id title) db h =
    perform_cases IsSingle (update_title strip draft_id title) db h
      λ a e. IsSingle-update_title strip draft_id title db h
perform-IsSingle (replace_call row_id draft_id drafts) db h =
    perform_cases IsSingle (replace_draft_questions row_id draft_id drafts) db h
      λ a e. IsSingle-replace row_id draft_id drafts db h
perform-IsSingle (duplicate_call row_id id duration default_title admin_id source) db h =
    perform_cases IsSingle (duplicate_to_draft row_id id duration default_title admin_id source) db
      h
      λ a e.
        unfold duplicate_to_draft in
        IsSingle-copy row_id id duration default_title admin_id source (get_by_id source db) db h
perform-IsSingle (image_call test_id position file_id file_unique_id) db h =
    perform_cases IsSingle (attach_question_image test_id position file_id file_unique_id) db h
      λ a e. unfold attach_question_image set_image in h
perform-IsSingle (publish_call draft_id now now') db h =
    perform_cases IsSingle (publish draft_id now now') db h
      λ t e. IsSingle-publish draft_id now now' db t e
perform-IsSingle
      (upload_call show is_space upper lower row_id id duration default_title admin_id title book)
      db h =
    perform_cases IsSingle
      (create_draft_from_excel show is_space upper lower row_id id duration default_title admin_id
        title book)
      db h
      λ a e.
        unfold create_draft_from_excel in
        IsSingle-store_parsed row_id id duration default_title admin_id title _ db h

perform-not_IsConflict :
    (c : Call) (db : Database) → Distinct (λ t. t.id) db.tests → IsSingle db → ¬ IsConflict c db
perform-not_IsConflict (publish_call draft_id now now') db apart single =
    publish-no_conflict draft_id now now' db apart single
perform-not_IsConflict (create_call id duration default_title admin_id title) db apart single =
    λ e. e
perform-not_IsConflict (cancel_call draft_id) db apart single = λ e. e
perform-not_IsConflict (title_call strip draft_id title) db apart single = λ e. e
perform-not_IsConflict (replace_call row_id draft_id drafts) db apart single = λ e. e
perform-not_IsConflict (duplicate_call row_id id duration default_title admin_id source) db apart
      single =
    λ e. e
perform-not_IsConflict (image_call test_id position file_id file_unique_id) db apart single = λ e. e
perform-not_IsConflict
      (upload_call show is_space upper lower row_id id duration default_title admin_id title book)
      db apart single =
    λ e. e

-- Where ids are unique and at most one test is active, every authoring request, returning or raising,
-- leaves at most one active, and no publication is refused by the unique index: the test that was
-- active is archived first.
pub perform-one_active :
    (c : Call) (db : Database)
    → Distinct (λ t. t.id) db.tests
    → count is_active_row db.tests ≤ 1
    → (count is_active_row (perform c db).tests ≤ 1) × (¬ IsConflict c db)
perform-one_active c db apart single =
    (perform-IsSingle c db single, perform-not_IsConflict c db apart single)
