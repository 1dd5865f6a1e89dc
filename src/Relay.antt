-- ===== src/Relay.antt =====
-- The pool of relay connections.
pub mod Recovery
pub mod Receive
pub mod Budget
pub mod Control
