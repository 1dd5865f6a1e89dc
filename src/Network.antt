-- ===== src/Network.antt =====
-- What the launcher does about a network that comes and goes.
pub mod Retry
