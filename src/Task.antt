-- ===== src/Task.antt =====
-- The task runtime: src/runtime.
pub mod Status
pub mod Record
pub mod Publish
pub mod Content
pub mod Run
pub mod Calls
pub mod Steps
pub mod Host
pub mod Manager
pub mod Saved
pub mod Views
pub mod Delete
