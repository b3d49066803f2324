-- ===== src/Bot.antt =====
-- The bot: app/bot.
pub mod Screen
pub mod TestTaking
pub mod Middlewares
