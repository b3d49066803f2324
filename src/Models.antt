-- ===== src/Models.antt =====
-- The rows of the tables (app/models) and the database that a session works on.
-- Times are microseconds; an id is the number that the server gave the row. The columns that no
-- modelled statement reads (the surrogate id and the timestamps of an answer, `created_at` and
-- `updated_at` of users, tests and questions) are left out.
mod Status
pub use Status.*
use testify.Common.{ℕ, Bool, Option, List, Text}

-- app/models/user.py
pub record User : Type 0 where
  pub id : ℕ
  pub telegram_id : ℕ
  pub username : Option Text
  pub full_name : Option Text
  pub phone : Option Text
  pub reference_code : Option Text
  pub status : UserStatus
  pub bot_blocked : Bool
  pub approved_at : Option ℕ

-- app/models/test.py
pub record Test : Type 0 where
  pub id : ℕ
  pub title : Text
  pub status : TestStatus
  pub duration_seconds : ℕ
  pub created_by_admin_id : Option ℕ
  pub published_at : Option ℕ
  pub archived_at : Option ℕ

-- app/models/question.py
pub record Question : Type 0 where
  pub id : ℕ
  pub test_id : ℕ
  pub section : Section
  pub position : ℕ
  pub question_text : Text
  pub option_a : Text
  pub option_b : Text
  pub option_c : Text
  pub option_d : Text
  pub correct_option : Text
  pub has_image : Bool
  pub image_file_id : Option Text
  pub image_file_unique_id : Option Text

-- app/models/attempt.py
pub record Attempt : Type 0 where
  pub id : ℕ
  pub user_id : ℕ
  pub test_id : ℕ
  pub status : AttemptStatus
  pub current_position : ℕ
  pub started_at : ℕ
  pub finished_at : Option ℕ
  pub expires_at : ℕ
  pub score_total_correct : Option ℕ
  pub score_rus_tili_correct : Option ℕ
  pub score_pedagogik_correct : Option ℕ
  pub score_kasbiy_correct : Option ℕ
  pub warning_10min_sent_at : Option ℕ
  pub warning_5min_sent_at : Option ℕ
  pub warning_1min_sent_at : Option ℕ

-- app/models/answer.py
pub record Answer : Type 0 where
  pub attempt_id : ℕ
  pub question_id : ℕ
  pub selected_option : Text
  pub is_correct : Bool

-- app/models/receipt.py; the hash is its 64-bit pattern
pub record PaymentReceipt : Type 0 where
  pub id : ℕ
  pub user_id : ℕ
  pub telegram_file_id : Text
  pub telegram_file_unique_id : Text
  pub image_phash : Option ℕ
  pub status : ReceiptStatus
  pub rejection_reason : Option Text
  pub reviewed_by_admin_id : Option ℕ
  pub admin_notification_message_id : Option ℕ
  pub created_at : ℕ
  pub reviewed_at : Option ℕ

pub record Database : Type 0 where
  pub users : List User
  pub tests : List Test
  pub questions : List Question
  pub attempts : List Attempt
  pub answers : List Answer
  pub receipts : List PaymentReceipt
