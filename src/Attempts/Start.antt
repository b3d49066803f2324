-- ===== src/Attempts/Start.antt =====
-- `start` on every branch.
use testify.Common.{
  ℕ, select, ◌+◌, ◌≡◌, insert, if◌then◌else◌, count, not, Bool, some, List, arith, true, none, ◌∷◌,
  [], Option-cases, refl, inr, inl,
}
use testify.Effects.{ok, err, not_approved, attempt_already_exists, outcome, after}
use testify.Models.{User, Test, Attempt, is_approved, Database}
use testify.Jobs.Scheduler.{Scheduler}
use testify.Jobs.Registry.{microseconds, schedule_attempt_jobs}
use testify.Attempts.Repository.{
  get_by_user_and_test, get_in_progress_for_user, create, new_attempt, newest,
}
use testify.Attempts.Invariant.{is_open_of, no_open_row}
use testify.Attempts.Service.{World, start}

module _ (sched : Scheduler) (id now now' : ℕ) (user : User) (test : Test)
    (w : World sched.Jobs) where
  -- the row and the world that a successful call leaves
  abbrev started : Attempt
  started = new_attempt id user.id test.id now (now + microseconds test.duration_seconds)

  -- `start` answers by the first of its three checks that fails: the user is not approved, has an
  -- open attempt on any test, or has an attempt on this test; then nothing has changed. Where none
  -- fails it inserts the attempt, which expires after the test's duration, and schedules its jobs.
  start_lem : start sched id now now' user test w ≡ (
      if not (is_approved user.status)
      then (err not_approved, w)
      else elim (get_in_progress_for_user user.id w.db) [
        | some a ↦ (err (attempt_already_exists (some a.id)), w)
        | none ↦ elim (get_by_user_and_test user.id test.id w.db) [
          | some a ↦ (err (attempt_already_exists (some a.id)), w)
          | none ↦ (
            ok started,
            record {
              db = record w.db { attempts = insert started w.db.attempts };
              jobs = schedule_attempt_jobs sched now' started w.jobs;
            },
          )
        ]
      ])
  unfolding start create get_by_user_and_test
  start_lem = ground arith

select-insert :
    (p : Attempt → Bool) (a : Attempt) (attempts : List Attempt)
    → p a ≡ true
    → count p attempts ≡ 0
    → select p (insert a attempts) ≡ a ∷ []
unfolding select insert count
select-insert p a [] yes_ h = rw yes_
select-insert p a (x ∷ attempts) yes_ h = ground (arith, select-insert p a attempts yes_)

-- The open attempt that `start` inserted is the one that the user has.
get_in_progress-started :
    (id user_id test_id from to : ℕ) (db : Database)
    → get_in_progress_for_user user_id db ≡ none
    → let row = new_attempt id user_id test_id from to in
      get_in_progress_for_user user_id (record db { attempts = insert row db.attempts }) ≡ some row
unfolding get_in_progress_for_user
get_in_progress-started id user_id test_id from to db free =
    rw
      (select-insert (is_open_of user_id) (new_attempt id user_id test_id from to) db.attempts
        (ground arith) (no_open_row user_id db free))
      (unfold newest in refl)

-- After a call of `start` that returned an attempt, a second call for the same user, on the same
-- test or on another, is refused with the id of that attempt and changes nothing: a user has one
-- open attempt at a time.
pub start_again :
    (sched : Scheduler) (id now now' id' later later' : ℕ) (user : User) (test other : Test)
    (w : World sched.Jobs) (a : Attempt)
    → outcome (start sched id now now' user test) w ≡ ok a
    → let w' = after (start sched id now now' user test) w in
      start sched id' later later' user other w' ≡ (err (attempt_already_exists (some a.id)), w')
start_again sched id now now' id' later later' user test other w a first =
    let w' = after (start sched id now now' user test) w in
    elim (Option-cases (get_in_progress_for_user user.id w.db)) [
      | inr (b, busy) ↦ ground (arith, start_lem sched id now now' user test w)
      | inl free ↦
          let until = now + microseconds test.duration_seconds in
          ground (
            arith,
            start_lem sched id now now' user test w,
            start_lem sched id' later later' user other w',
            get_in_progress-started id user.id test.id now until w.db free,
          )
    ]
