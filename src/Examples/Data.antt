-- ===== src/Examples/Data.antt =====
-- A database with two users, one test of three questions, an open attempt and a pending receipt, and
-- a job store that is a function from job ids to due times.
use testify.Common.{
  ℕ, Option, none, some, false, true, List, [], ◌∷◌, Text, ◌≡◌, refl, if◌then◌else◌, ◌+◌, Bool,
  arith,
}
use testify.Models.{
  User, Test, Question, Attempt, Answer, PaymentReceipt, Database, UserStatus, active, banned,
  pending_approval, in_progress, pending, rus_tili, pedagogik, kasbiy, Section,
}
use testify.Jobs.Scheduler.{Scheduler, JobId, job_eq}
use testify.Attempts.Service.{World}

abbrev pub letter_a : Text
letter_a = b'A' ∷ []

abbrev pub letter_b : Text
letter_b = b'B' ∷ []

abbrev pub user_row : ℕ → UserStatus → User
user_row id status = record {
  id = id;
  telegram_id = 700 + id;
  username = none;
  full_name = none;
  phone = none;
  reference_code = none;
  status = status;
  bot_blocked = false;
  approved_at = none;
}

abbrev pub student : User
student = record (user_row 1 UserStatus.approved) { approved_at = some 50 }

abbrev pub outcast : User
outcast = user_row 2 banned

abbrev pub applicant : User
applicant = user_row 3 pending_approval

abbrev pub newcomer : User
newcomer = record (user_row 4 UserStatus.approved) { approved_at = some 60 }

abbrev pub exam : Test
exam = record {
  id = 5;
  title = [];
  status = active;
  duration_seconds = 3200;
  created_by_admin_id = none;
  published_at = some 10;
  archived_at = none;
}

abbrev pub question_row : ℕ → Section → ℕ → Question
question_row id section position = record {
  id = id;
  test_id = 5;
  section = section;
  position = position;
  question_text = [];
  option_a = [];
  option_b = [];
  option_c = [];
  option_d = [];
  correct_option = letter_a;
  has_image = false;
  image_file_id = none;
  image_file_unique_id = none;
}

abbrev pub questions : List Question
questions =
    question_row 21 rus_tili 1 ∷ question_row 22 pedagogik 36 ∷ question_row 23 kasbiy 46 ∷ []

abbrev pub answer_row : ℕ → Text → Bool → Answer
answer_row question_id option right = record {
  attempt_id = 10;
  question_id = question_id;
  selected_option = option;
  is_correct = right;
}

-- The first answer is wrong and the second is right.
abbrev pub answers : List Answer
answers = answer_row 21 letter_b false ∷ answer_row 22 letter_a true ∷ []

abbrev pub attempt_row : Attempt
attempt_row = record {
  id = 10;
  user_id = 1;
  test_id = 5;
  status = in_progress;
  current_position = 2;
  started_at = 100;
  finished_at = none;
  expires_at = 3200000100;
  score_total_correct = none;
  score_rus_tili_correct = none;
  score_pedagogik_correct = none;
  score_kasbiy_correct = none;
  warning_10min_sent_at = none;
  warning_5min_sent_at = none;
  warning_1min_sent_at = none;
}

abbrev pub receipt_row : ℕ → ℕ → PaymentReceipt
receipt_row id user_id = record {
  id = id;
  user_id = user_id;
  telegram_file_id = letter_a;
  telegram_file_unique_id = letter_b;
  image_phash = some 255;
  status = pending;
  rejection_reason = none;
  reviewed_by_admin_id = none;
  admin_notification_message_id = none;
  created_at = 70;
  reviewed_at = none;
}

abbrev pub database : Database
database = record {
  users = student ∷ outcast ∷ applicant ∷ newcomer ∷ [];
  tests = exam ∷ [];
  questions = questions;
  attempts = attempt_row ∷ [];
  answers = answers;
  receipts = receipt_row 30 3 ∷ receipt_row 31 2 ∷ [];
}

abbrev pub Store : Type 0
Store = JobId → Option ℕ

abbrev pub drop_job : JobId → Store → Store
drop_job i jobs j = if job_eq i j then none else jobs j

abbrev pub remove_stored : Store → JobId → Option Store
remove_stored jobs i = elim (jobs i) [ none ↦ none | some t ↦ some (drop_job i jobs) ]

pub remove_stored_gone : (jobs : Store) (i : JobId) → remove_stored jobs i ≡ none → jobs i ≡ none
remove_stored_gone jobs i h = ground arith

pub remove_stored_left :
    (jobs : Store) (i : JobId) (left : Store)
    → remove_stored jobs i ≡ some left
    → left ≡ drop_job i jobs
remove_stored_left jobs i left h = ground arith

abbrev pub store : Scheduler
store = record {
  Jobs = Store;
  run_date = λ jobs j. jobs j;
  add_job = λ jobs i t j. if job_eq i j then some t else jobs j;
  remove_job = remove_stored;
  run_date-add_job = λ jobs i j t. refl;
  run_date-remove_job = λ jobs i j left h. rw (remove_stored_left jobs i left h) refl;
  remove_job_missing = remove_stored_gone;
}

abbrev pub no_jobs : store.Jobs
no_jobs i = none

abbrev pub world : World store.Jobs
world = record { db = database; jobs = no_jobs }
