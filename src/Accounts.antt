-- ===== src/Accounts.antt =====
-- What the launcher knows about an account's past events.
pub mod Coverage
pub mod Pages
