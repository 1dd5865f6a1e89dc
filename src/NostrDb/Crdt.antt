-- ===== src/NostrDb/Crdt.antt =====
-- src/services/idb/nostrdb/crdt.js: the merge of two versions of a replaceable event, tag by tag.
-- Strings are lists of UTF-16 code units; the elements of tags are strings, timestamps are natural
-- numbers, as the store validates them. A `Map` keyed by the identity is the list of its actions in
-- the order of insertion.
pub mod Tombstones
pub mod Metadata
pub mod Ranks
pub mod Actions
pub mod Options
pub mod States
pub mod Ordering
pub mod Merge
mod Tests
