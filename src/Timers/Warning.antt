-- ===== src/Timers/Warning.antt =====
-- A warning is sent at most once, and to nobody who is banned.
use testify.Users.Repository as Users
