-- ===== src/Reconciliation.antt =====
-- src/sync/reconciliation: what to do with each path, from its four recorded states.
pub mod Operation
pub mod Resolve
pub mod Determine
pub mod Epoch
pub mod Safety
