-- ===== src/Exams/Service.antt =====
-- The writing methods of app/services/test_service.py. The ids of new rows and the readings of the
-- clock are arguments.
pub mod Publish
pub mod Authoring
pub mod Published
use testify.Utils.Strip.{is_empty}
use testify.Common.{
  ℕ, zero, suc, Bool, Option, none, some, true, false, List, [], ◌∷◌, ◌++◌, ◌==◌, ◌||◌, Text, map,
  length, ltb, not, if◌then◌else◌, take,
}
use testify.Effects.{
  Action, ok, err, pure, raise, raise_if, gets, writing, assert_some, ◌>>=◌, ◌>>◌, value_error,
  draft_required, publish_conflict, integrity_error, Error,
}
use testify.Models.{Test, Question, Database, is_draft}
use testify.Attempts.Repository.{list_by_test}
use testify.Exams.Repository.{
  QuestionDraft, get_by_id, get_active, new_draft, create_draft, mark_active, mark_archived,
  delete_draft, bulk_create, list_missing_image_positions, delete_by_test, image_at, set_image,
}
use testify.Exams.Repository

-- A statement that may raise `e` instead of writing.
abbrev pub or_raise : {A : Type 0} → Error → (Database → Option (A × Database)) → Action Database A
or_raise e f db = elim (f db) [ none ↦ (err e, db) | some (a, db') ↦ (ok a, db') ]

-- `bulk_create`, whose `IntegrityError` nobody catches.
abbrev pub add_questions : (ℕ → ℕ) → ℕ → List QuestionDraft → Action Database Unit
add_questions row_id test_id drafts db = elim (bulk_create row_id test_id drafts db) [
  | none ↦ (err integrity_error, db)
  | some db' ↦ (ok tt, db')
]

-- `title or _default_title()`
abbrev pub title_or : Text → Option Text → Text
title_or default_title none = default_title
title_or default_title (some []) = default_title
title_or default_title (some (c ∷ s)) = c ∷ s

-- `create_empty_draft`; `id` is the id of the new row.
unfoldable pub create_empty_draft : ℕ → ℕ → Text → Option ℕ → Option Text → Action Database Test
create_empty_draft id duration default_title admin_id title db =
    let test = new_draft id (title_or default_title title) duration admin_id in
    (ok test, create_draft test db)

unfoldable pub cancel_draft : ℕ → Action Database Bool
cancel_draft draft_id = do rowcount ← writing (delete_draft draft_id); pure (ltb 0 rowcount)

-- `update_title`; `strip` is `str.strip`.
unfoldable pub update_title : (Text → Text) → ℕ → Text → Action Database Bool
update_title strip draft_id title = do
  raise_if (is_empty (strip title) || ltb 200 (length (strip title))) value_error
  rowcount ← writing (Repository.update_title draft_id (strip title))
  pure (ltb 0 rowcount)

-- `test is None or test.status != "draft"`
abbrev pub is_draft_test : Option Test → Bool
is_draft_test none = false
is_draft_test (some test) = is_draft test.status

-- A draft with the image that its position had.
abbrev pub carry : Option Question → QuestionDraft → QuestionDraft
carry none d = d
carry (some old) d =
    if d.has_image
    then record d {
      image_file_id = old.image_file_id;
      image_file_unique_id = old.image_file_unique_id;
    }
    else d

unfoldable pub replace_draft_questions : (ℕ → ℕ) → ℕ → List QuestionDraft → Action Database Unit
replace_draft_questions row_id draft_id drafts db =
    if is_draft_test (get_by_id draft_id db)
    then add_questions row_id draft_id (map (λ d. carry (image_at draft_id d.position db) d) drafts)
        (delete_by_test draft_id db)
    else (err draft_required, db)

-- " (копия)"
abbrev pub copy_suffix : Text
copy_suffix = 32 ∷ 40 ∷ 1082 ∷ 1086 ∷ 1087 ∷ 1080 ∷ 1103 ∷ 41 ∷ []

abbrev pub draft_of : Question → QuestionDraft
draft_of q = record {
  section = q.section;
  position = q.position;
  question_text = q.question_text;
  option_a = q.option_a;
  option_b = q.option_b;
  option_c = q.option_c;
  option_d = q.option_d;
  correct_option = q.correct_option;
  has_image = q.has_image;
  image_file_id = q.image_file_id;
  image_file_unique_id = q.image_file_unique_id;
}

-- `duplicate_to_draft` on the row that was read; a missing source is a `ValueError`.
unfoldable pub copy_to_draft :
    (ℕ → ℕ) → ℕ → ℕ → Text → Option ℕ → ℕ → Option Test → Action Database Test
unfolding create_empty_draft
copy_to_draft row_id id duration default_title admin_id source_test_id none = raise value_error
copy_to_draft row_id id duration default_title admin_id source_test_id (some source) = do
  let title = take 200 (source.title ++ copy_suffix)
  copy ← create_empty_draft id duration default_title admin_id (some title)
  rows ← gets (list_by_test source_test_id)
  add_questions row_id copy.id (map draft_of rows)
  pure copy

unfoldable pub duplicate_to_draft : (ℕ → ℕ) → ℕ → ℕ → Text → Option ℕ → ℕ → Action Database Test
unfolding copy_to_draft
duplicate_to_draft row_id id duration default_title admin_id source_test_id = do
  source ← gets (get_by_id source_test_id)
  copy_to_draft row_id id duration default_title admin_id source_test_id source

unfoldable pub attach_question_image : ℕ → ℕ → Text → Text → Action Database Bool
attach_question_image test_id position file_id file_unique_id = do
  rowcount ← writing (set_image test_id position file_id file_unique_id)
  pure (ltb 0 rowcount)

-- The archiving of the test that is active, unless it is the draft itself.
abbrev pub archive_other : ℕ → ℕ → Option Test → Action Database Unit
archive_other draft_id now none = pure tt
archive_other draft_id now (some current) = if current.id == draft_id then pure tt else do
  archived ← writing (mark_archived current.id now)
  raise_if (not (archived == 1)) value_error

-- `publish`; `now` is the time of the archiving and `now'` that of the activation.
unfoldable pub publish : ℕ → ℕ → ℕ → Action Database Test
publish draft_id now now' = do
  missing ← gets (list_missing_image_positions draft_id)
  raise_if (not (is_empty missing)) value_error
  current_active ← gets get_active
  archive_other draft_id now current_active
  activated ← or_raise publish_conflict (mark_active draft_id now')
  raise_if (not (activated == 1)) value_error
  assert_some (← gets (get_by_id draft_id))
