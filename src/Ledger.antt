-- ===== src/Ledger.antt =====
-- The global task ledger: src/runtime/taskLedgerManager.js.
pub mod Normalize
pub mod Entry
pub mod Validate
pub mod Stages
pub mod Manager
pub mod Reconcile
pub mod Calls
pub mod Capacity
pub mod History
pub mod Growth
pub mod Guards
pub mod Sync
pub mod Dispatch
pub mod Lists
