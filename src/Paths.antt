-- ===== src/Paths.antt =====
-- src/utils/path-utils.ts
pub mod Ancestry
pub mod Normal
