-- ===== src/Tests/Jobs.antt =====
-- Tests of the schedules.
use ender.Prelude.{true, [], none, some, lit}
use ender.Json.{string, object, field, end}
use ender.Schedules.{thread_target, Draft, Accepted}
use ender.Schedules.Manager.{Manager}

abbrev empty : Manager
empty = record { schedules = []; jobs = []; files = [] }

abbrev hourly : Draft
hourly = record {
  name = some (string (lit "Hourly"));
  cron = some (string (lit "0 * * * *"));
  timezone = some (string (lit "Mars"));
  enabled = none;
  created_by = none;
  target = some (
      object (
        field (lit "kind") (string (lit "thread")) (
          field (lit "threadId") (string (lit "t"))
            (field (lit "prompt") (string (lit "go")) end))));
}

abbrev hourly_value : Accepted
hourly_value = record {
  name = lit "Hourly";
  cron = lit "0 * * * *";
  timezone = some (lit "Mars");
  enabled = true;
  created_by = none;
  target = thread_target (lit "t") (lit "go");
}
