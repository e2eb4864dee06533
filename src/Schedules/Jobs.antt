-- ===== src/Schedules/Jobs.antt =====
-- Which schedules have a cron job: src/runtime/scheduleManager.js.
use ender.Prelude.{Bool, true, false, List, Option, none, some, Text, lookup, if◌then◌else◌, ◌≡◌}
use ender.Schedules.{Draft}
use ender.Schedules.Manager.{
  Schedule, Job, Manager, ScheduleReply, threw, job_of, create, update, delete, begin_execution,
  end_execution, Outcome,
}

-- The job that a schedule should have.
abbrev pub job_for : Option Schedule → Option Job
job_for none = none
job_for (some s) = if s.enabled then some (job_of s) else none

-- Each schedule stands under its id, and has a job exactly if it is enabled, made with its expression and
-- time zone; there are no other jobs.
abbrev pub IsMatched : Manager → Type 0
IsMatched m =
    ((k : Text) (s : Schedule) → lookup k m.schedules ≡ some s → s.id ≡ k)
    × ((k : Text) → lookup k m.jobs ≡ job_for (lookup k m.schedules))

abbrev pub has_thrown : ScheduleReply → Bool
has_thrown threw = true
has_thrown _ = false

module _ (is_cron : Text → Bool) (starts : Text → Option Text → Bool) where
  abbrev Fine : Manager × ScheduleReply → Type 0
  Fine x = has_thrown x.1 ≡ false → IsMatched x.0

  -- The calls on the manager and the two halves of an execution; none of the calls throws.
  pub data Step : Manager → Manager → Type 0 where
    created :
        (now : Text) (ids : List Text) (d : Draft) (m : Manager)
        → has_thrown (create is_cron starts now ids d m).1 ≡ false
        → Step m (create is_cron starts now ids d m).0
    updated :
        (now id : Text) (d : Draft) (m : Manager)
        → has_thrown (update is_cron starts now id d m).1 ≡ false
        → Step m (update is_cron starts now id d m).0
    deleted : (id : Text) (m : Manager) → Step m (delete is_cron starts id m).0
    began : (now id : Text) (m : Manager) → Step m (begin_execution now id m)
    ended : (o : Outcome) (held : Schedule) (m : Manager) → Step m (end_execution o held m)

  pub data Reach (m : Manager) : Manager → Type 0 where
    here : Reach m m
    next : {n p : Manager} → Reach m n → Step n p → Reach m p
