-- ===== src/Vault.antt =====
-- The launcher's side of the vault connection: the queue of requests to it.
pub mod Requests
pub mod Accepted
