-- ===== src/Tests.antt =====
-- Runs of the model on concrete inputs, and the theorems applied at inputs that meet their
-- hypotheses.
mod Samples
mod Mutation
mod Folder
mod Merge
mod Guards
mod Realtime
mod Reconciliation
mod Coordinator
mod Operations
mod Concurrency
