-- ===== src/Users.antt =====
-- The user funnel: app/repositories/user_repository.py and app/services/user_service.py.
pub mod Repository
pub mod Name
pub mod Service
