-- ===== src/Tests.antt =====
-- Runs of the development on concrete data.
pub mod Data
pub mod Access
pub mod Operations
pub mod Migration
pub mod Queue
pub mod Reconcile
pub mod Validation
pub mod Reviews
pub mod Writing
pub mod Approving
pub mod Migrating
