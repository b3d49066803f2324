-- ===== src/Lib.antt =====
-- testify: the model of a Telegram bot for exams (app/), its theorems and their examples.
--
-- A user passes an onboarding funnel, submits a payment receipt, is approved by an admin, and takes
-- a timed test of questions in three sections. The services of app/services run SQL statements of
-- app/repositories in the session of one request; app/bot/middlewares/db_session.py commits where
-- the request returns and rolls back where it raises. Timer jobs call the same services.
--
-- Parts, and the files that model them:
-- - Common: Boolean tests, and Common.Table: a table as the list of its rows, with the statements
--   select, count, update, delete and insert, and the row counts that the code reads.
-- - Models: the rows of app/models and the database of a session.
-- - Effects: a service call as a function from a state to a result and a state; the exceptions of
--   app/exceptions.py; `in_transaction` is the session middleware.
-- - Scoring: app/services/scoring_service.py.
-- - Jobs: app/jobs/registry.py over a record of APScheduler's operations and their laws.
-- - Attempts: app/services/attempt_service.py over app/repositories/attempt_repository.py,
--   answer_repository.py and question_repository.py. Attempts.Service has each method as one
--   function, Attempts.Race the same methods one SQL statement at a time, in any order: a read there
--   sees what the other calls have written, committed or not, and no call rolls back.
-- - Users: app/services/user_service.py over app/repositories/user_repository.py.
-- - Receipts: app/services/receipt_service.py over app/repositories/receipt_repository.py, and the
--   comparison of hashes of app/services/image_hasher.py; Receipts.Reminder is
--   app/jobs/pending_receipt_reminder.py.
-- - Exams: the writing methods of app/services/test_service.py over
--   app/repositories/test_repository.py and question_repository.py, and the whole-test
--   rules of app/services/question_validation.py in Exams.Validation, its field rules in
--   Exams.Validation.Fields; Exams.Form is app/web/forms.py with `save_draft` of
--   app/web/handlers/tests.py; Exams.Excel is app/services/excel_parser.py on the cells that
--   openpyxl gives, Exams.Excel.Match is what a file holds, and
--   Exams.Excel.Draft stores what was parsed.
-- - Timers: app/jobs/attempt_timer.py and app/jobs/startup_reconciliation.py. A job's result is the
--   committed database with the job store, what it sent, and whether it raised.
-- - Broadcasts: app/jobs/broadcast_runner.py over app/repositories/broadcast_repository.py, with the
--   recipients of app/repositories/user_repository.py and `copy_broadcast_message` of
--   app/services/notification_service.py. A result lists what became of each student reached.
-- - Settings: app/services/settings_service.py over app/repositories/settings_repository.py.
-- - Bot: Bot.Screen is app/bot/views/test_screen.py and result_screen.py, as the buttons and what is
--   filled into the texts; Bot.TestTaking is app/bot/handlers/test_taking.py, whose handlers act on
--   the database, the jobs, the settings, the FSM data and the message that the user sees.
--   Bot.Middlewares is the chain of app/bot/middlewares that an update passes before its handler.
-- - Web: app/web/auth.py, its gate in Web.Auth and the login codes, the throttle and the sessions in
--   Web.Login, with `login_submit` of app/web/handlers/login.py.
-- - Utils: `normalize_phone`, `html_escape` and `truncate` of app/utils/text.py, and
--   app/utils/markup.py, whose patterns are a machine over the characters. Utils.Strip is Python's
--   `str.strip`.
-- - Examples: a small database and job store, and each theorem with hypotheses at it.
--
-- Times are microseconds, and each reading of the clock is an argument. The ids of new rows are
-- arguments too: the server assigns them. An UPDATE returns the number of rows that it matched; the
-- row count of `mark_approved` on users is also given for a driver that counts changed rows. The
-- loops are over lists or a counted range, but `run_broadcast`, which has fuel for its batches: a batch passes a
-- recipient or is the last, so one more than the recipients is enough.
--
-- Parameters: APScheduler's job store with its documented laws; Redis, with its laws where the
-- settings, the reminders and the login rest on them; Python's `str.strip` or its `str.isspace`,
-- `str.upper`, `str.lower`, `str.isdigit`, `int` and the tables of `unicodedata`; what `secrets`
-- draws; the perceptual hash of a photo; what openpyxl reads from a file; whether a read of the
-- settings raises in a timer job; and what Telegram answers to each copy of a message, each edit or
-- send of a screen, each card and each reminder.
--
-- Not modelled: logging, the wording of the messages, the bot's other handlers and views, the web
-- panel but its form, its login and its gate, a commit or a read of the settings that fails in a
-- handler, configuration and migrations.
pub mod Common
pub mod Models
pub mod Scoring
pub mod Effects
pub mod Jobs
pub mod Attempts
pub mod Timers
pub mod Utils
pub mod Users
pub mod Receipts
pub mod Exams
pub mod Examples
pub mod Broadcasts
pub mod Web
pub mod Settings
pub mod Bot
