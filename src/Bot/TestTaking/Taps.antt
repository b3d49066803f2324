-- ===== src/Bot/TestTaking/Taps.antt =====
-- A tap on a test that the user may not change: another's attempt, or one that has ended.
use testify.Common.{ℕ, Bool, some, ◌≡◌, inl, inr, Text, Option-cases, arith, find-some}
use testify.Models.{Attempt, Database}
use testify.Attempts.Repository.{has_id, get_by_id}
use testify.Attempts.Service.{get_attempt_for_user}
use testify.Bot.Screen.{Callback, test_answer, test_nav, test_finish}

-- A button of a test's screens: an option, a position, the end of the test or its confirmation.
pub data IsTap (attempt_id : ℕ) : Callback → Type 0 where
  answer_tap : (pos : ℕ) (option : Text) → IsTap attempt_id (test_answer attempt_id pos option)
  nav_tap : (target : ℕ) → IsTap attempt_id (test_nav attempt_id target)
  finish_tap : (confirmed : Bool) → IsTap attempt_id (test_finish attempt_id confirmed)

pub get_attempt_for_user-found :
    (attempt_id user_id : ℕ) (db : Database) (a : Attempt)
    → get_attempt_for_user attempt_id user_id db ≡ some a
    → (get_by_id attempt_id db ≡ some a) × (a.id ≡ attempt_id)
unfolding get_attempt_for_user get_by_id
get_attempt_for_user-found attempt_id user_id db a h =
    elim (Option-cases (get_by_id attempt_id db)) [
      | inl missing ↦ ground arith
      | inr (b, found) ↦ ground (arith, find-some (has_id attempt_id) db.attempts b found)
    ]
