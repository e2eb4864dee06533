-- ===== src/Task/Steps/LogBound.antt =====
-- The log of a task never grows past `maxLogs`.
use ender.Prelude.{◌≤◌, ◌-◌, List, length, length-drop, arith}
use ender.Task.Record.{Log}
use ender.Task.Publish.{max_logs, trim_logs}

-- However long the log was, after `_push` it holds at most `maxLogs` items.
pub trim_logs-bounded : (logs : List Log) → length (trim_logs logs) ≤ max_logs
unfolding trim_logs
trim_logs-bounded logs = ground (arith, length-drop (length logs - max_logs) logs)
