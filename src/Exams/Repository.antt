-- ===== src/Exams/Repository.antt =====
-- The statements of app/repositories/test_repository.py and question_repository.py that authoring
-- runs. `none` stands for an `IntegrityError`.
pub mod Bulk
use testify.Common.{
  ℕ, Bool, Option, none, some, false, List, [], ◌∷◌, ◌==◌, ◌&&◌, ◌||◌, ◌+◌, Text, text_eq, map,
  count, find, select, update, delete, insert, leb, ltb, is_some, is_none, if◌then◌else◌,
}
use testify.Models.{
  Test, Question, Database, draft, active, archived, Section, rus_tili, pedagogik, kasbiy, other,
  is_draft, is_active,
}
use testify.Attempts.Repository.{order_by_position}

-- ---------- tests ----------

abbrev pub has_id : ℕ → Test → Bool
has_id test_id t = t.id == test_id

-- `Test.id == test_id, Test.status == "draft"`
abbrev pub is_draft_row : ℕ → Test → Bool
is_draft_row test_id t = t.id == test_id && is_draft t.status

-- `Test.status == "active"`, and the rows of the unique index on `is_active_flag`
abbrev pub is_active_row : Test → Bool
is_active_row t = is_active t.status

unfoldable pub get_by_id : ℕ → Database → Option Test
get_by_id test_id db = find (has_id test_id) db.tests

unfoldable pub get_active : Database → Option Test
get_active db = find is_active_row db.tests

-- The new row of `create_draft`.
abbrev pub new_draft : ℕ → Text → ℕ → Option ℕ → Test
new_draft id title duration_seconds created_by_admin_id = record {
  id = id;
  title = title;
  status = draft;
  duration_seconds = duration_seconds;
  created_by_admin_id = created_by_admin_id;
  published_at = none;
  archived_at = none;
}

unfoldable pub create_draft : Test → Database → Database
create_draft row db = record db { tests = insert row db.tests }

abbrev pub activated_row : ℕ → Test → Test
activated_row now t = record t { status = active; published_at = some now }

abbrev pub archived_row : ℕ → Test → Test
archived_row now t = record t { status = archived; archived_at = some now }

-- `mark_active`: the unique index `ux_tests__one_active` refuses a second active row.
unfoldable pub mark_active : ℕ → ℕ → Database → Option (ℕ × Database)
mark_active test_id now db =
    let rowcount = count (is_draft_row test_id) db.tests in
    if ltb 0 rowcount && ltb 1 (rowcount + count is_active_row db.tests)
    then none
    else some
        (rowcount, record db { tests = update (is_draft_row test_id) (activated_row now) db.tests })

abbrev pub is_active_with : ℕ → Test → Bool
is_active_with test_id t = t.id == test_id && is_active t.status

unfoldable pub mark_archived : ℕ → ℕ → Database → ℕ × Database
mark_archived test_id now db = (
  count (is_active_with test_id) db.tests,
  record db { tests = update (is_active_with test_id) (archived_row now) db.tests },
)

unfoldable pub update_title : ℕ → Text → Database → ℕ × Database
update_title test_id title db = (
  count (is_draft_row test_id) db.tests,
  record db { tests = update (is_draft_row test_id) (λ t. record t { title = title }) db.tests },
)

abbrev pub is_of_test : ℕ → Question → Bool
is_of_test test_id q = q.test_id == test_id

-- `delete_draft`: the foreign key of the questions cascades. No attempt refers to a draft.
unfoldable pub delete_draft : ℕ → Database → ℕ × Database
delete_draft test_id db =
    let rowcount = count (is_draft_row test_id) db.tests in
    (
      rowcount,
      record db {
        tests = delete (is_draft_row test_id) db.tests;
        questions =
            if rowcount == 0 then db.questions else delete (is_of_test test_id) db.questions;
      },
    )

-- ---------- questions ----------

-- `QuestionDraft`
pub record QuestionDraft : Type 0 where
  pub section : Section
  pub position : ℕ
  pub question_text : Text
  pub option_a : Text
  pub option_b : Text
  pub option_c : Text
  pub option_d : Text
  pub correct_option : Text
  pub has_image : Bool
  pub image_file_id : Option Text
  pub image_file_unique_id : Option Text

-- A row of `bulk_create`.
abbrev pub new_question : ℕ → ℕ → QuestionDraft → Question
new_question id test_id d = record {
  id = id;
  test_id = test_id;
  section = d.section;
  position = d.position;
  question_text = d.question_text;
  option_a = d.option_a;
  option_b = d.option_b;
  option_c = d.option_c;
  option_d = d.option_d;
  correct_option = d.correct_option;
  has_image = d.has_image;
  image_file_id = if d.has_image then d.image_file_id else none;
  image_file_unique_id = if d.has_image then d.image_file_unique_id else none;
}

-- `ck_questions__section_position_consistent`
abbrev pub in_range : Section → ℕ → Bool
in_range rus_tili position = leb 1 position && leb position 35
in_range pedagogik position = leb 36 position && leb position 45
in_range kasbiy position = leb 46 position && leb position 50
in_range (other s) position = false

-- `ck_questions__correct_enum`
abbrev pub is_option : Text → Bool
is_option s =
    text_eq s (b'A' ∷ []) || text_eq s (b'B' ∷ []) || text_eq s (b'C' ∷ []) || text_eq s (b'D' ∷ [])

-- The CHECK constraints of a question.
unfoldable pub is_valid_row : Question → Bool
is_valid_row q =
    in_range q.section q.position
    && is_option q.correct_option
    && (q.has_image || is_none q.image_file_id)

-- `ux_questions__test_position`
abbrev pub is_at : ℕ → ℕ → Question → Bool
is_at test_id position q = q.test_id == test_id && q.position == position

-- `bulk_create`; `row_id` gives the id that the server assigns to the row at a position.
unfoldable pub bulk_create : (ℕ → ℕ) → ℕ → List QuestionDraft → Database → Option Database
unfolding is_valid_row
bulk_create row_id test_id [] db = some db
bulk_create row_id test_id (d ∷ drafts) db =
    let row = new_question (row_id d.position) test_id d in
    let rest =
      bulk_create row_id test_id drafts (record db { questions = insert row db.questions }) in
    if is_valid_row row && is_none (find (is_at test_id d.position) db.questions)
    then rest
    else none

abbrev pub is_missing_image : ℕ → Question → Bool
is_missing_image test_id q = q.test_id == test_id && q.has_image && is_none q.image_file_id

unfoldable pub list_missing_image_positions : ℕ → Database → List ℕ
unfolding order_by_position
list_missing_image_positions test_id db =
    map (λ q. q.position) (order_by_position (select (is_missing_image test_id) db.questions))

unfoldable pub delete_by_test : ℕ → Database → Database
delete_by_test test_id db = record db { questions = delete (is_of_test test_id) db.questions }

-- `map_images_by_position(test_id).get(position)`: the positions of a test are unique.
unfoldable pub image_at : ℕ → ℕ → Database → Option Question
image_at test_id position db =
    find (λ q. is_at test_id position q && is_some q.image_file_id) db.questions

abbrev pub is_image_question : ℕ → ℕ → Question → Bool
is_image_question test_id position q =
    (q.test_id == test_id && q.position == position) && q.has_image

unfoldable pub set_image : ℕ → ℕ → Text → Text → Database → ℕ × Database
set_image test_id position file_id file_unique_id db = (
  count (is_image_question test_id position) db.questions,
  record db {
    questions =
        update (is_image_question test_id position)
          (λ q. record q {
            image_file_id = some file_id;
            image_file_unique_id = some file_unique_id;
          })
          db.questions;
  },
)
