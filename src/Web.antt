-- ===== src/Web.antt =====
-- The web panel: app/web.
pub mod Auth
pub mod Login
