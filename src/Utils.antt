-- ===== src/Utils.antt =====
-- app/utils
pub mod Strip
pub mod Phone
pub mod Html
pub mod Markup
