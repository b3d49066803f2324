-- ===== src/Timers.antt =====
-- The scheduler's jobs: app/jobs/attempt_timer.py and app/jobs/startup_reconciliation.py.
pub mod Jobs
pub mod Expire
pub mod Warning
pub mod Sweep
pub mod Round
pub mod Reconcile
