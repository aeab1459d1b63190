-- ===== src/Canonical/Merge.antt =====
-- src/sync/canonical/merge.ts: the reduction of a device's desired index into the latest canonical
-- index.
pub mod Context
pub mod Replacement
pub mod Authority
pub mod Files
pub mod Logs
pub mod Reduce
pub mod Steps
pub mod Progressing
pub mod Revision
pub mod Runs
pub mod Watermarks
pub mod Rounds
pub mod Touched
pub mod Fate
pub mod Protection
pub mod InOrder
pub mod Success
