-- ===== src/NostrDb.antt =====
-- The launcher's event store: the merge of replaceable events, the scheduler of its accesses, and its scans in
-- chunks.
pub mod Crdt
pub mod Scheduler
pub mod Cursor
