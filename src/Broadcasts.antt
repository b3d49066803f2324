-- ===== src/Broadcasts.antt =====
-- Announcements: app/repositories/broadcast_repository.py and app/jobs/broadcast_runner.py.
pub mod Repository
pub mod Runner
pub mod Order
pub mod Pass
pub mod Batches
pub mod Finished
pub mod Once
pub mod Between
pub mod Crash
pub mod Resume
