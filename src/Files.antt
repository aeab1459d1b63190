-- ===== src/Files.antt =====
-- src/sync/files and src/utils/resource-fingerprint.ts: guards of physical file work.
pub mod Fingerprint
pub mod Actions
pub mod Cover
