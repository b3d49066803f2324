-- ===== src/Examples.antt =====
-- A small database and job store, and the theorems of each component applied to them.
mod Data
mod Attempts
mod Races
mod Users
mod Receipts
mod Scores
mod Exams
mod Validation
mod Timers
mod Cache
mod Taking
mod Texts
mod Forms
mod Broadcasts
mod Sheets
mod Panel
mod Updates
mod Reminders
mod Login
