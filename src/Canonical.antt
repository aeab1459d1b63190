-- ===== src/Canonical.antt =====
-- src/sync/canonical: the rules of the canonical index.
pub mod Mutation
pub mod Folder
pub mod Merge
