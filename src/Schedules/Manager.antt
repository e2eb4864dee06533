-- ===== src/Schedules/Manager.antt =====
-- `ScheduleManager` of src/runtime/scheduleManager.js. The task and workflow managers' answers are
-- arguments of an execution, whose last save may come after other calls. `starts` says whether
-- cron.schedule accepts an expression with a time zone; where it does not, it throws.
use ender.Prelude.{
  Bool, true, false, List, [], ◌∷◌, Option, none, some, Text, lit, non_empty, text_of, Map, lookup,
  insert, remove, fresh_key, if◌then◌else◌,
}
use ender.Json.{Json, null, boolean, string}
use ender.Schedules.{
  Target, target_json, Draft, Accepted, Verdict, accepted, rejected, validate, null_or,
}

pub record Schedule : Type 0 where
  pub id : Text
  pub name : Text
  pub cron : Text
  pub timezone : Option Text
  pub enabled : Bool
  pub target : Target
  pub created_at : Text
  pub updated_at : Text
  pub created_by : Option Text
  pub last_run_at : Option Text
  pub last_run_status : Option Text
  pub last_run_message : Option Text

-- What a cron job was made with.
pub record Job : Type 0 where
  pub cron : Text
  pub timezone : Option Text

-- `files` holds what the saves have written.
pub record Manager : Type 0 where
  pub schedules : Map Schedule
  pub jobs : Map Job
  pub files : Map Schedule

pub data ScheduleReply : Type 0 where
  scheduled : Schedule → ScheduleReply
  removed : ScheduleReply
  refused : Text → ScheduleReply
  threw : ScheduleReply

abbrev pub job_of : Schedule → Job
job_of s = record { cron = s.cron; timezone = s.timezone }

-- `_deactivate`
unfoldable pub deactivate : Text → Manager → Manager
deactivate id m = record m { jobs = remove id m.jobs }

abbrev pub persist : Schedule → Manager → Manager
persist s m = record m { files = insert s.id s m.files }

-- The JSON values of a schedule's fields, as `update` merges them.
abbrev pub draft_of : Schedule → Draft
draft_of s = record {
  name = some (string s.name);
  cron = some (string s.cron);
  timezone = some (null_or s.timezone);
  enabled = some (boolean s.enabled);
  created_by = some (null_or s.created_by);
  target = some (target_json s.target);
}

-- `a ?? b`
abbrev pub given_or : Option Json → Option Json → Option Json
given_or none b = b
given_or (some null) b = b
given_or (some j) b = some j

unfoldable pub merge : Draft → Schedule → Draft
merge d s = record {
  name = given_or d.name (some (string s.name));
  cron = given_or d.cron (some (string s.cron));
  timezone = given_or d.timezone (some (null_or s.timezone));
  enabled = given_or d.enabled (some (boolean s.enabled));
  created_by = some (null_or s.created_by);
  target = given_or d.target (some (target_json s.target));
}

unfoldable pub new_schedule : Text → Text → Accepted → Schedule
new_schedule now id v = record {
  id = id;
  name = v.name;
  cron = v.cron;
  timezone = v.timezone;
  enabled = v.enabled;
  target = v.target;
  created_at = now;
  updated_at = now;
  created_by = non_empty (text_of v.created_by);
  last_run_at = none;
  last_run_status = none;
  last_run_message = none;
}

unfoldable pub edited : Text → Accepted → Schedule → Schedule
edited now v s = record s {
  name = v.name;
  cron = v.cron;
  timezone = v.timezone;
  enabled = v.enabled;
  target = v.target;
  updated_at = now;
}

module _ (is_cron : Text → Bool) (starts : Text → Option Text → Bool) where
  -- `_activate`, and whether it threw.
  unfoldable pub activate : Schedule → Manager → Manager × Bool
  unfolding deactivate
  activate s m =
      let stopped = deactivate s.id m in
      if starts s.cron s.timezone
      then (record stopped { jobs = insert s.id (job_of s) stopped.jobs }, false)
      else (stopped, true)

  -- The schedule in the map is stored and started or stopped, then saved.
  unfoldable pub settle : Schedule → Manager → Manager × ScheduleReply
  unfolding activate deactivate
  settle s m =
      let kept = record m { schedules = insert s.id s m.schedules } in
      let (active, failed) = activate s kept in
      if s.enabled
      then if failed then (active, threw) else (persist s active, scheduled s)
      else (persist s (deactivate s.id kept), scheduled s)

  abbrev pub create_with : Text → Option Text → Manager → Verdict → Manager × ScheduleReply
  create_with now id m (rejected e) = (m, refused e)
  create_with now none m (accepted v) = (m, threw)
  create_with now (some id) m (accepted v) = settle (new_schedule now id v) m

  -- `create`; `ids` is what randomUUID gives.
  unfoldable pub create : Text → List Text → Draft → Manager → Manager × ScheduleReply
  unfolding settle new_schedule
  create now ids d m = create_with now (fresh_key ids m.schedules) m (validate is_cron d)

  abbrev pub update_with : Text → Schedule → Manager → Verdict → Manager × ScheduleReply
  update_with now s m (rejected e) = (m, refused e)
  update_with now s m (accepted v) = settle (edited now v s) m

  abbrev pub update_found : Text → Draft → Manager → Option Schedule → Manager × ScheduleReply
  update_found now d m none = (m, refused (lit "not_found"))
  update_found now d m (some s) = update_with now s m (validate is_cron (merge d s))

  -- `update`
  unfoldable pub update : Text → Text → Draft → Manager → Manager × ScheduleReply
  unfolding settle edited merge
  update now id d m = update_found now d m (lookup id m.schedules)

  abbrev pub drop_found : Manager → Option Schedule → Manager × ScheduleReply
  drop_found m none = (m, refused (lit "not_found"))
  drop_found m (some s) = (
    record m {
      jobs = remove s.id m.jobs;
      schedules = remove s.id m.schedules;
      files = remove s.id m.files;
    },
    removed,
  )

  -- `delete`
  unfoldable pub delete : Text → Manager → Manager × ScheduleReply
  delete id m = drop_found m (lookup id m.schedules)

  -- `_activateAll`, on the schedules that were loaded; the first that throws ends it.
  unfoldable pub activate_all : Map Schedule → Manager → Manager × Bool
  unfolding activate
  activate_all [] m = (m, false)
  activate_all ((k, s) ∷ rest) m =
      let (m', failed) = if s.enabled then activate s m else (m, false) in
      let others = activate_all rest m' in if failed then (m', true) else others

-- `stop`
unfoldable pub stop : Manager → Manager
stop m = record m { jobs = [] }

-- How the execution of a target ended: with the message of its success, or an exception's.
pub data Outcome : Type 0 where
  succeeded : Text → Outcome
  failed_with : Text → Outcome

-- `_execute` up to its wait for the target: the schedule object is marked.
unfoldable pub marked : Text → Schedule → Schedule
marked now s = record s { last_run_at = some now; updated_at = now }

unfoldable pub concluded : Outcome → Schedule → Schedule
concluded (succeeded msg) s = record s {
  last_run_status = some (lit "ok");
  last_run_message = some msg;
}
concluded (failed_with msg) s = record s {
  last_run_status = some (lit "error");
  last_run_message = some msg;
}

abbrev pub execute_found : Text → Manager → Option Schedule → Manager
execute_found now m none = m
execute_found now m (some s) = record m { schedules = insert s.id (marked now s) m.schedules }

unfoldable pub begin_execution : Text → Text → Manager → Manager
unfolding marked
begin_execution now id m = execute_found now m (lookup id m.schedules)

-- The end of `_execute`, on the schedule object: `held` is the object if it is no longer in the map.
abbrev pub end_with : Outcome → Schedule → Manager → Option Schedule → Manager
end_with o held m none = persist (concluded o held) m
end_with o held m (some s) =
    persist (concluded o s) (record m { schedules = insert s.id (concluded o s) m.schedules })

unfoldable pub end_execution : Outcome → Schedule → Manager → Manager
unfolding concluded
end_execution o held m = end_with o held m (lookup held.id m.schedules)
