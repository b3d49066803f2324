-- ===== src/Attempts.antt =====
-- The life of a test attempt: app/repositories/attempt_repository.py and answer_repository.py, and
-- app/services/attempt_service.py.
pub mod Repository
pub mod Service
pub mod Marks
pub mod Finish
pub mod Race
pub mod Invariant
pub mod Writes
pub mod Start
