-- ===== src/Tests/Managers.antt =====
-- Tests of the task manager.
use ender.Tests.Paths.{cleaned, step_between}
use ender.Task.Host.{Host}
use ender.Tests.Sample.{host}

-- The sample host with these paths.
abbrev pathed : Host
pathed = record host { resolve = cleaned; relative = step_between }
