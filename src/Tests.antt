-- ===== src/Tests.antt =====
-- Sample values, runs at concrete inputs, and each theorem at an input that meets its hypotheses.
mod Sample
mod Paths
mod Statuses
mod Runs
mod Calls
mod Managers
mod Entries
mod Saved
mod Reloads
mod Relays
mod Streams
mod Users
mod Windows
mod Files
mod Jobs
mod Turns
mod Recall
mod Sessions
mod Workspaces
mod Origins
