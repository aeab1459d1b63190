-- ===== src/Realtime.antt =====
-- src/sync/realtime/rules.ts and src/sync/realtime/queue-rules.ts: the queue of the vault watcher.
pub mod Events
pub mod Rename
pub mod Waiting
pub mod Queue
pub mod Partition
pub mod Causal
pub mod Receipts
