-- ===== src/Attempts/Repository.antt =====
-- The statements of app/repositories/attempt_repository.py, answer_repository.py and the reads of
-- question_repository.py that the attempts use. An `update` returns the rows that it matched.
pub mod Laws
use testify.Common.{
  ℕ, List, Option, if◌then◌else◌, Bool, find, none, select, map, ◌∷◌, is_some, count, some, ◌==◌,
  ltb, ◌&&◌, leb, update, insert, is_none, [], true, false,
}
use testify.Models.{Attempt, Answer, Question, Database, in_progress, AttemptStatus, is_in_progress}
use testify.Scoring.{SectionScores}

abbrev pub has_id : ℕ → Attempt → Bool
has_id attempt_id a = a.id == attempt_id

-- `Attempt.id == attempt_id, Attempt.status == "in_progress"`
abbrev pub is_open_row : ℕ → Attempt → Bool
is_open_row attempt_id a = a.id == attempt_id && is_in_progress a.status

-- ---------- reads ----------

unfoldable pub get_by_id : ℕ → Database → Option Attempt
get_by_id attempt_id db = find (has_id attempt_id) db.attempts

unfoldable pub get_by_user_and_test : ℕ → ℕ → Database → Option Attempt
get_by_user_and_test user_id test_id db =
    find (λ a. a.user_id == user_id && a.test_id == test_id) db.attempts

-- The newest of the rows: `order_by(started_at.desc()).limit(1)`.
unfoldable pub newest : List Attempt → Option Attempt
newest [] = none
newest (a ∷ attempts) = elim (newest attempts) [
  | none ↦ some a
  | some b ↦ if ltb a.started_at b.started_at then some b else some a
]

unfoldable pub get_in_progress_for_user : ℕ → Database → Option Attempt
unfolding newest
get_in_progress_for_user user_id db =
    newest (select (λ a. a.user_id == user_id && is_in_progress a.status) db.attempts)

unfoldable pub list_in_progress : Database → List Attempt
list_in_progress db = select (λ a. is_in_progress a.status) db.attempts

unfoldable pub list_in_progress_for_user : ℕ → Database → List Attempt
list_in_progress_for_user user_id db =
    select (λ a. a.user_id == user_id && is_in_progress a.status) db.attempts

unfoldable pub list_expired_in_progress : ℕ → Database → List ℕ
list_expired_in_progress now db =
    map (λ a. a.id) (select (λ a. is_in_progress a.status && ltb a.expires_at now) db.attempts)

unfoldable pub list_by_attempt : ℕ → Database → List Answer
list_by_attempt attempt_id db = select (λ a. a.attempt_id == attempt_id) db.answers

-- `order_by(Question.position.asc())`, by insertion.
unfoldable pub insert_by_position : Question → List Question → List Question
insert_by_position q [] = q ∷ []
insert_by_position q (r ∷ rest) =
    let later = r ∷ insert_by_position q rest in
    if leb q.position r.position then q ∷ r ∷ rest else later

unfoldable pub order_by_position : List Question → List Question
unfolding insert_by_position
order_by_position [] = []
order_by_position (q ∷ rest) = insert_by_position q (order_by_position rest)

unfoldable pub list_by_test : ℕ → Database → List Question
unfolding order_by_position
list_by_test test_id db = order_by_position (select (λ q. q.test_id == test_id) db.questions)

unfoldable pub get_by_test_position : ℕ → ℕ → Database → Option Question
get_by_test_position test_id position db =
    find (λ q. q.test_id == test_id && q.position == position) db.questions

-- ---------- writes ----------

-- The new row of `create`; `id` is the one that the server assigns.
abbrev pub new_attempt : ℕ → ℕ → ℕ → ℕ → ℕ → Attempt
new_attempt id user_id test_id started_at expires_at = record {
  id = id;
  user_id = user_id;
  test_id = test_id;
  status = in_progress;
  current_position = 1;
  started_at = started_at;
  finished_at = none;
  expires_at = expires_at;
  score_total_correct = none;
  score_rus_tili_correct = none;
  score_pedagogik_correct = none;
  score_kasbiy_correct = none;
  warning_10min_sent_at = none;
  warning_5min_sent_at = none;
  warning_1min_sent_at = none;
}

-- `create`: `none` is the `IntegrityError` of the unique index `ux_attempts__user_test`.
unfoldable pub create : Attempt → Database → Option Database
create row db =
    if is_some (find (λ a. a.user_id == row.user_id && a.test_id == row.test_id) db.attempts)
    then none
    else some (record db { attempts = insert row db.attempts })

unfoldable pub set_current_position : ℕ → ℕ → Database → ℕ × Database
set_current_position attempt_id position db = (
  count (is_open_row attempt_id) db.attempts,
  record db {
    attempts =
        update (is_open_row attempt_id) (λ a. record a { current_position = position }) db.attempts;
  },
)

-- The values that `mark_finished` writes.
abbrev pub finished_row : AttemptStatus → SectionScores → ℕ → Attempt → Attempt
finished_row status scores now a = record a {
  status = status;
  finished_at = some now;
  score_total_correct = some scores.total;
  score_rus_tili_correct = some scores.rus_tili;
  score_pedagogik_correct = some scores.pedagogik;
  score_kasbiy_correct = some scores.kasbiy;
}

unfoldable pub mark_finished : ℕ → AttemptStatus → SectionScores → ℕ → Database → ℕ × Database
mark_finished attempt_id status scores now db = (
  count (is_open_row attempt_id) db.attempts,
  record db {
    attempts = update (is_open_row attempt_id) (finished_row status scores now) db.attempts;
  },
)

-- `WarningSlot`
pub data WarningSlot : Type 0 where
  ten_min five_min one_min : WarningSlot

abbrev pub warning_slot_eq : WarningSlot → WarningSlot → Bool
warning_slot_eq ten_min ten_min = true
warning_slot_eq five_min five_min = true
warning_slot_eq one_min one_min = true
warning_slot_eq _ _ = false

-- The column that the slot names.
abbrev pub sent_at : WarningSlot → Attempt → Option ℕ
sent_at ten_min a = a.warning_10min_sent_at
sent_at five_min a = a.warning_5min_sent_at
sent_at one_min a = a.warning_1min_sent_at

abbrev pub stamp : WarningSlot → ℕ → Attempt → Attempt
stamp ten_min now a = record a { warning_10min_sent_at = some now }
stamp five_min now a = record a { warning_5min_sent_at = some now }
stamp one_min now a = record a { warning_1min_sent_at = some now }

abbrev pub is_unsent_row : ℕ → WarningSlot → Attempt → Bool
is_unsent_row attempt_id slot a = is_open_row attempt_id a && is_none (sent_at slot a)

unfoldable pub mark_warning_sent : ℕ → WarningSlot → ℕ → Database → ℕ × Database
mark_warning_sent attempt_id slot now db = (
  count (is_unsent_row attempt_id slot) db.attempts,
  record db { attempts = update (is_unsent_row attempt_id slot) (stamp slot now) db.attempts },
)

abbrev pub is_answer_of : ℕ → ℕ → Answer → Bool
is_answer_of attempt_id question_id a = a.attempt_id == attempt_id && a.question_id == question_id

-- `_GUARDED_UPSERT_SQL`: nothing where the attempt is not open; otherwise an insert, or an update of
-- the row with the same `(attempt_id, question_id)`. `ck_answers__selected_enum` is left out: the
-- callbacks of the bot send A, B, C and D only.
unfoldable pub upsert : Answer → Database → Database
upsert row db =
    if is_some (find (is_open_row row.attempt_id) db.attempts)
    then record db {
      answers =
          if is_some (find (is_answer_of row.attempt_id row.question_id) db.answers)
          then update (is_answer_of row.attempt_id row.question_id)
              (λ a. record a { selected_option = row.selected_option; is_correct = row.is_correct })
              db.answers
          else insert row db.answers;
    }
    else db
