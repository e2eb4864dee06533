-- ===== src/Tests/Reloads.antt =====
-- Tests of the tasks that are read from disk.
use ender.Prelude.{
  Bool, true, false, length, List, [], ◌∷◌, values, All, none, some, lit, text_eq, has, insert, ◌≡◌,
  refl, arith,
}
use ender.Json.{Json, string, boolean, object, end, field}
use ender.Json.Read.{string_of, js_string}
use ender.Records.{set_field}
use ender.Repository.{Loaded}
use ender.Task.Status.{running, done, can_transition}
use ender.Task.Record.{Task, World}
use ender.Task.Calls.{refused, continue_task}
use ender.Task.Saved.{
  serialize_task, hydrate_task, fresh_world, or_unstarted, load_tasks, settle_loaded,
}
use ender.Task.Saved.Restored.{hydrate-serialize_task, IsStored, restored}
use ender.Task.Saved.Loading.{load_tasks-AllSettled, unsaved_is_stranded, IsSettled}
use ender.Tests.Sample.{env, host, task_in}

abbrev ended : Task
ended = record (task_in done none) { llm_profile_id = some (lit "openai") }

ended-IsStored : IsStored host ended
unfolding lit
ended-IsStored = record {
  over = refl;
  title = refl;
  execution_prompt = refl;
  initial_goal = refl;
  latest_prompt = refl;
  started_at = refl;
  finished_at = tt;
  logs = omega arith;
  pending = refl;
  workspace = refl;
  workspace_label = refl;
  project_id = tt;
  llm_profile_id = refl;
  profile = refl;
  ledger_entry_id = tt;
  parent_task_id = tt;
}

hydrate-serialize_task_example :
    hydrate_task env host (serialize_task ended) ≡ some (fresh_world (restored ended))
hydrate-serialize_task_example = hydrate-serialize_task env host ended ended-IsStored

abbrev stopped : Json
stopped = object (
    field (lit "id") (string (lit "a")) (
      field (lit "status") (string (lit "running"))
        (field (lit "autoRestartOnInterruption") (boolean true) end)))

abbrev files : List (Loaded × Bool)
files = (record { task_id = lit "a"; parsed = some stopped }, true) ∷ []

one_is_loaded : length (load_tasks env host files []) ≡ 1
unfolding load_tasks lit text_eq set_field string_of js_string has can_transition insert
one_is_loaded = refl

load_tasks-AllSettled_example : All IsSettled (values (load_tasks env host files []))
load_tasks-AllSettled_example = load_tasks-AllSettled env host files [] (refl, tt) tt

abbrev restarted : World
restarted = or_unstarted (fresh_world ended) (hydrate_task env host stopped)

is_restarted : hydrate_task env host stopped ≡ some restarted
unfolding hydrate_task lit text_eq js_string can_transition
is_restarted = refl

restarted_runs : restarted.task.status ≡ running
unfolding hydrate_task lit text_eq js_string can_transition
restarted_runs = refl

unsaved_is_stranded_example :
    let x = settle_loaded env false restarted in
    (x.task.status ≡ running)
    × (x.task.controller ≡ none)
    × ((continue_task env (string (lit "Go on")) x).1 ≡ refused (lit "task_busy"))
unsaved_is_stranded_example =
    unsaved_is_stranded env host stopped (string (lit "Go on")) is_restarted restarted_runs
