-- ===== src/Local.antt =====
-- src/sync/local: the state that only this device keeps.
pub mod Baseline
pub mod Observed
pub mod Operations
pub mod Actions
