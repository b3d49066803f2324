-- ===== src/Jobs.antt =====
-- app/jobs: the timers of an attempt, the jobs that run them, and the sweeps.
pub mod Scheduler
pub mod Registry
