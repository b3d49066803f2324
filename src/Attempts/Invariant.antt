-- ===== src/Attempts/Invariant.antt =====
-- What holds of the `attempts` table whatever the service does: four constraints of
-- app/models/attempt.py, and one open attempt to a user. `ck_attempts__score_ranges` is not among
-- them.
use testify.Common.{
  is_some, ℕ, List, Bool, ◌≡◌, ◌==◌, All, leb, arith, not, ◌&&◌, count, false, none, ◌||◌, ◌≤◌,
  true, length, select, insert, update, ◌∷◌, length-select, All-insert, refl, [], All-update,
  count-update_le, Bool-cases, find-none-count, inl, subst, count-insert, inr,
}
use testify.Models.{Attempt, Database, AttemptStatus, is_in_progress}
use testify.Scoring.{SectionScores}
use testify.Attempts.Repository
use testify.Attempts.Repository.{
  WarningSlot, ten_min, five_min, one_min, is_open_row, is_unsent_row, stamp, finished_row, create,
  newest, get_by_user_and_test, get_in_progress_for_user, mark_finished, upsert, new_attempt,
}

-- `ck_attempts__finished_consistent`, `ck_attempts__score_total_when_finished` and
-- `ck_attempts__current_position_range`.
abbrev pub IsRow : Attempt → Type 0
IsRow a =
    (is_some a.finished_at ≡ not (is_in_progress a.status))
    × (is_in_progress a.status || is_some a.score_total_correct ≡ true)
    × (leb 1 a.current_position && leb a.current_position 50 ≡ true)

abbrev pub is_of : ℕ → ℕ → Attempt → Bool
is_of user_id test_id a = a.user_id == user_id && a.test_id == test_id

abbrev pub is_open_of : ℕ → Attempt → Bool
is_open_of user_id a = a.user_id == user_id && is_in_progress a.status

pub record IsConsistent (attempts : List Attempt) : Type 0 where
  pub rows : All IsRow attempts
  -- `ux_attempts__user_test`
  pub one_per_test : (user_id test_id : ℕ) → count (is_of user_id test_id) attempts ≤ 1
  pub one_open : (user_id : ℕ) → count (is_open_of user_id) attempts ≤ 1

-- An update that keeps the owner and the test, opens no row and keeps the row constraints.
update-IsConsistent :
    (p : Attempt → Bool) (f : Attempt → Attempt) (attempts : List Attempt)
    → ((a : Attempt) → (f a).user_id ≡ a.user_id)
    → ((a : Attempt) → (f a).test_id ≡ a.test_id)
    → ((a : Attempt) → is_in_progress a.status ≡ false → is_in_progress (f a).status ≡ false)
    → ((a : Attempt) → p a ≡ true → IsRow a → IsRow (f a))
    → IsConsistent attempts
    → IsConsistent (update p f attempts)
update-IsConsistent p f attempts user test closed row h = record {
  rows = All-update IsRow p f attempts row h.rows;
  one_per_test = λ u t. omega (
    arith,
    count-update_le p (is_of u t) f attempts (λ x e no. ground (arith, user x, test x)),
    h.one_per_test u t,
  );
  one_open = λ u. omega (
    arith,
    count-update_le p (is_open_of u) f attempts (λ x e no. ground (arith, user x, closed x)),
    h.one_open u,
  );
}

pub mark_finished-IsConsistent :
    (attempt_id : ℕ) (status : AttemptStatus) (scores : SectionScores) (now : ℕ) (db : Database)
    → is_in_progress status ≡ false
    → IsConsistent db.attempts
    → IsConsistent (mark_finished attempt_id status scores now db).1.attempts
unfolding mark_finished
mark_finished-IsConsistent attempt_id status scores now db done h =
    update-IsConsistent (is_open_row attempt_id) (finished_row status scores now) db.attempts
      (λ a. refl) (λ a. refl) (λ a e. done) (λ a e r. ground arith) h

pub set_current_position-IsConsistent :
    (attempt_id position : ℕ) (db : Database)
    → leb 1 position && leb position 50 ≡ true
    → IsConsistent db.attempts
    → IsConsistent (Repository.set_current_position attempt_id position db).1.attempts
unfolding Repository.set_current_position
set_current_position-IsConsistent attempt_id position db range h =
    update-IsConsistent (is_open_row attempt_id) (λ a. record a { current_position = position })
      db.attempts (λ a. refl) (λ a. refl) (λ a e. e) (λ a e r. ground arith) h

pub mark_warning_sent-IsConsistent :
    (attempt_id : ℕ) (slot : WarningSlot) (now : ℕ) (db : Database)
    → IsConsistent db.attempts
    → IsConsistent (Repository.mark_warning_sent attempt_id slot now db).1.attempts
unfolding Repository.mark_warning_sent
mark_warning_sent-IsConsistent attempt_id slot now db h =
    update-IsConsistent (is_unsent_row attempt_id slot) (stamp slot now) db.attempts
      (λ a. ground arith) (λ a. ground arith) (λ a e. ground arith) (λ a e r. ground arith) h

-- `get_in_progress_for_user` misses no open row.
newest-none : (attempts : List Attempt) → newest attempts ≡ none → length attempts ≡ 0
unfolding newest
newest-none [] h = refl
newest-none (a ∷ attempts) h = ground arith

pub no_open_row :
    (user_id : ℕ) (db : Database)
    → get_in_progress_for_user user_id db ≡ none
    → count (is_open_of user_id) db.attempts ≡ 0
unfolding get_in_progress_for_user
no_open_row user_id db h = omega (
  arith,
  newest-none (select (is_open_of user_id) db.attempts) h,
  length-select (is_open_of user_id) db.attempts,
)

-- One more row of a user and a test that had none.
count-is_of-insert :
    (a : Attempt) (attempts : List Attempt) (u t : ℕ)
    → count (is_of a.user_id a.test_id) attempts ≡ 0
    → count (is_of u t) attempts ≤ 1
    → count (is_of u t) (insert a attempts) ≤ 1
unfolding count
count-is_of-insert a attempts u t free few = elim (Bool-cases (is_of u t a)) [
  | inl same ↦
      let eu : a.user_id ≡ u = ground arith in
      let et : a.test_id ≡ t = ground arith in
      let free' : count (is_of u t) attempts ≡ 0 =
        subst (λ v. count (is_of v t) attempts ≡ 0) eu
          (subst (λ v. count (is_of a.user_id v) attempts ≡ 0) et free) in
      rw (count-insert (is_of u t) a attempts) (ground arith)
  | inr other ↦ rw (count-insert (is_of u t) a attempts) (ground arith)
]

count-is_open_of-insert :
    (a : Attempt) (attempts : List Attempt) (u : ℕ)
    → count (is_open_of a.user_id) attempts ≡ 0
    → count (is_open_of u) attempts ≤ 1
    → count (is_open_of u) (insert a attempts) ≤ 1
unfolding count
count-is_open_of-insert a attempts u free few = elim (Bool-cases (is_open_of u a)) [
  | inl same ↦
      let eu : a.user_id ≡ u = ground arith in
      let free' : count (is_open_of u) attempts ≡ 0 =
        subst (λ v. count (is_open_of v) attempts ≡ 0) eu free in
      rw (count-insert (is_open_of u) a attempts) (ground arith)
  | inr other ↦ rw (count-insert (is_open_of u) a attempts) (ground arith)
]

pub insert-IsConsistent :
    (id user_id test_id started_at expires_at : ℕ) (db : Database)
    → get_in_progress_for_user user_id db ≡ none
    → get_by_user_and_test user_id test_id db ≡ none
    → IsConsistent db.attempts
    → IsConsistent (insert (new_attempt id user_id test_id started_at expires_at) db.attempts)
unfolding get_by_user_and_test
insert-IsConsistent id user_id test_id started_at expires_at db free untaken h = record {
  rows =
      All-insert IsRow (new_attempt id user_id test_id started_at expires_at) db.attempts
        (refl, refl, refl) h.rows;
  one_per_test = λ u t.
      count-is_of-insert (new_attempt id user_id test_id started_at expires_at) db.attempts u t
        (find-none-count (is_of user_id test_id) db.attempts untaken) (h.one_per_test u t);
  one_open = λ u.
      count-is_open_of-insert (new_attempt id user_id test_id started_at expires_at) db.attempts u
        (no_open_row user_id db free) (h.one_open u);
}
