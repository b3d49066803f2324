-- ===== src/Examples/Attempts.antt =====
-- The attempt service on the small database.
use testify.Scoring.{compute, question_by_id}
use testify.Attempts.Repository.{
  get_by_id, mark_finished, get_in_progress_for_user, get_by_user_and_test, new_attempt, create,
  list_by_attempt, list_by_test,
}
use testify.Models.{submitted}
use testify.Common.{
  ◌≡◌, refl, some, none, true, false, arith, find, count, update, select, insert, text_eq,
}
use testify.Effects.{ok, err, outcome, after, attempt_already_exists}
use testify.Jobs.Scheduler.{expire, warn_1min}
use testify.Jobs.Registry.{schedule_attempt_jobs, cancel_attempt_jobs}
use testify.Jobs.Registry.Laws.{run_date-schedule, run_date-cancel}
use testify.Attempts.Service.{AttemptResult, user_request, time_out, finish, start}
use testify.Attempts.Finish.{finish_twice}
use testify.Attempts.Start.{start_again}
use testify.Attempts.Invariant.{IsConsistent}
use testify.Attempts.Writes.{perform, perform-IsConsistent, finish_call}
use testify.Examples.Data.{store, world, database, no_jobs, newcomer, exam, attempt_row}

-- the result of the first finishing call
abbrev finished : AttemptResult
finished = (record {
  attempt = record attempt_row {
    status = submitted;
    finished_at = some 900;
    score_total_correct = some 1;
    score_rus_tili_correct = some 0;
    score_pedagogik_correct = some 1;
    score_kasbiy_correct = some 0;
  };
  scores = record { rus_tili = 0; pedagogik = 1; kasbiy = 0; total = 1 };
  owned_finalization = true;
})

finish_returns : outcome (finish store 10 user_request 900) world ≡ ok finished
unfolding finish get_by_id find mark_finished update count compute list_by_attempt list_by_test
    select question_by_id text_eq
finish_returns = refl

finish_twice_example :
    let w' = after (finish store 10 user_request 900) world in
    finish store 10 time_out 950 w' ≡ (ok (record finished { owned_finalization = false }), w')
finish_twice_example =
    finish_twice store 10 user_request time_out 900 950 world finished finish_returns

start_returns :
    outcome (start store 11 100 101 newcomer exam) world ≡ ok (new_attempt 11 4 5 100 3200000100)
unfolding start get_in_progress_for_user select get_by_user_and_test find create insert
start_returns = refl

start_again_example :
    let w' = after (start store 11 100 101 newcomer exam) world in
    start store 12 200 201 newcomer exam w' ≡ (err (attempt_already_exists (some 11)), w')
start_again_example =
    start_again store 11 100 101 12 200 201 newcomer exam exam world
      (new_attempt 11 4 5 100 3200000100) start_returns

database-IsConsistent : IsConsistent database.attempts
unfolding count
database-IsConsistent = record {
  rows = ((refl, refl, refl), tt);
  one_per_test = λ u t. ground arith;
  one_open = λ u. ground arith;
}

perform-IsConsistent_example :
    IsConsistent (perform store (finish_call 10 user_request 900) world).db.attempts
perform-IsConsistent_example =
    perform-IsConsistent store (finish_call 10 user_request 900) world database-IsConsistent

-- The warning of the last minute is due 60 seconds before the expiry.
run_date-schedule_example :
    schedule_attempt_jobs store 100 attempt_row no_jobs
      (record { suffix = warn_1min; attempt_id = 10 })
    ≡ some 3140000100
run_date-schedule_example =
    run_date-schedule store 100 attempt_row no_jobs (record { suffix = warn_1min; attempt_id = 10 })

run_date-cancel_example :
    let jobs = schedule_attempt_jobs store 100 attempt_row no_jobs in
    cancel_attempt_jobs store 10 jobs (record { suffix = expire; attempt_id = 10 }) ≡ none
run_date-cancel_example =
    run_date-cancel store 10 (schedule_attempt_jobs store 100 attempt_row no_jobs)
      (record { suffix = expire; attempt_id = 10 })
