-- ===== src/Receipts.antt =====
-- Payment receipts: app/repositories/receipt_repository.py and app/services/receipt_service.py.
pub mod Repository
pub mod Hash
pub mod Submit
pub mod Review
pub mod Reminder
