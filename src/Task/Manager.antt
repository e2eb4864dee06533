-- ===== src/Task/Manager.antt =====
-- `TaskManager` of src/runtime/taskManager.js over its map of tasks.
pub mod Workspaces
use ender.Prelude.{
  ℕ, zero, suc, Bool, true, false, not, ◌&&◌, ◌||◌, List, [], ◌∷◌, ◌++◌, Option, none, some, Text,
  lit, trim, take, text_eq, text_or, text_of, is_empty, non_empty, includes, keep, Map, lookup,
  insert, remove, fresh_key, or_else, if◌then◌else◌,
}
use ender.Json.{Json, string}
use ender.Task.Status.{running}
use ender.Task.Record.{Task, World, Env, MemoryMode, automatic, manual, off, idle}
use ender.Task.Publish.{push, schedule_persist}
use ender.Task.Run.{run_thread, chat_entry}
use ender.Task.Content.{first_line}
use ender.Task.Calls.{
  Reply, accepted, refused, threw, continue_task, resolve_approval, terminate, delete_task,
  shut_down,
}
use ender.Task.Host.{Host}

pub record Manager : Type 0 where
  pub tasks : Map World
  pub shutting_down : Bool

pub record StartOptions : Type 0 where
  pub execution_prompt : Option Text
  pub title : Option Text
  pub project_id : Option Text
  pub llm_profile_id : Option Text
  pub memory_mode : Option Text
  pub ledger_entry_id : Option Text
  pub parent_task_id : Option Text

abbrev pub no_options : StartOptions
no_options = record {
  execution_prompt = none;
  title = none;
  project_id = none;
  llm_profile_id = none;
  memory_mode = none;
  ledger_entry_id = none;
  parent_task_id = none;
}

-- The id of the new task, or the `error` of the refusal; `start_threw` is an exception.
pub data StartReply : Type 0 where
  started : Text → StartReply
  not_started : Text → StartReply
  start_threw : StartReply

unfoldable pub mode_of : Option Text → MemoryMode
mode_of none = automatic
mode_of (some s) =
    if text_eq s (lit "manual") then manual else if text_eq s (lit "off") then off else automatic

abbrev pub mode_name : MemoryMode → Text
mode_name automatic = lit "auto"
mode_name manual = lit "manual"
mode_name off = lit "off"

abbrev pub text_if : Option Text → Option Text
text_if none = none
text_if (some s) = non_empty s

-- `_resolveWorkspace`: the path and its label; `none` is an exception.
unfoldable pub resolve_workspace : Host → Option Text → Option (Text × Text)
resolve_workspace host input =
    let requested = trim (text_of input) in
    let candidate = host.resolve requested in
    if is_empty requested
    then some (host.resolve host.workdir, host.resolve host.workdir)
    else if host.exists candidate && host.is_directory candidate
    then some (candidate, requested)
    else none

-- `_shouldAutoRestartWorkspace`
unfoldable pub should_restart : Host → Text → Bool
should_restart host path =
    text_eq (host.resolve (text_or path host.workdir)) (host.resolve host.self_root)
    || host.auto_restart

unfoldable pub new_task : Env → Host → Text → Text → Text × Text → StartOptions → Task
new_task env host id goal place o =
    let clean = trim goal in
    record {
      id = id;
      title = take 160 (trim (text_or (text_of o.title) (text_or (first_line clean) (lit "Task"))));
      goal = clean;
      execution_prompt = trim (text_or (text_of o.execution_prompt) clean);
      initial_goal = clean;
      latest_prompt = clean;
      status = running;
      started_at = env.now;
      finished_at = none;
      logs = [];
      subs = [];
      result = none;
      run_count = 0;
      thread = record { role = lit "user"; content = string clean } ∷ [];
      pending = [];
      workspace = place.0;
      workspace_label = place.1;
      project_id = text_if o.project_id;
      llm_profile_id = elim (text_if o.llm_profile_id) [
        | some p ↦ some p
        | none ↦ host.default_profile
      ];
      memory_mode = mode_of o.memory_mode;
      ledger_entry_id = text_if o.ledger_entry_id;
      parent_task_id = text_if o.parent_task_id;
      child_task_ids = [];
      waiters = [];
      auto_restart = should_restart host place.0;
      controller = none;
      deleted = false;
      timer = false;
    }

abbrev pub fresh_world : Task → World
fresh_world t = record { task = t; phase = λ _. idle; out = [] }

-- A change of one task of the map, if it is there.
unfoldable pub update_task : Text → (World → World) → Map World → Map World
update_task id f m = elim (lookup id m) [ none ↦ m | some w ↦ insert id (f w) m ]

abbrev pub add_child : Text → World → World
add_child id w =
    if includes w.task.child_task_ids id
    then w
    else schedule_persist
        (record w { task = record w.task { child_task_ids = w.task.child_task_ids ++ id ∷ [] } })

unfoldable pub link_parent : Option Text → Text → Map World → Map World
unfolding update_task schedule_persist
link_parent none id m = m
link_parent (some parent) id m = update_task parent (add_child id) m

abbrev pub begin_run : Env → Text → Manager → Option World → Manager × StartReply
begin_run env id m none = (m, start_threw)
begin_run env id m (some w) = (record m { tasks = insert id w m.tasks }, started id)

-- `start` once the place and the id are known.
unfoldable pub start_at :
    Env → Host → Text → Text → Text × Text → StartOptions → Manager → Manager × StartReply
unfolding new_task push schedule_persist link_parent
start_at env host id goal place o m =
    let t = new_task env host id goal place o in
    let w =
      push env (some (lit "info")) (some (chat_entry (lit "user") (string t.goal)))
        (fresh_world t) in
    let linked = record m { tasks = link_parent t.parent_task_id id (insert id w m.tasks) } in
    begin_run env id linked (run_thread env (schedule_persist w))

abbrev pub start_with :
    Env → Host → Text → Text × Text → StartOptions → Manager → Option Text → Manager × StartReply
start_with env host goal place o m none = (m, start_threw)
start_with env host goal place o m (some id) = start_at env host id goal place o m

abbrev pub start_in :
    Env
    → Host
    → List Text
    → Text
    → StartOptions
    → Manager
    → Option (Text × Text)
    → Manager × StartReply
start_in env host ids goal o m none = (m, not_started (lit "invalid_workspace"))
start_in env host ids goal o m (some place) =
    start_with env host goal place o m (fresh_key ids m.tasks)

-- `start`; `ids` are the ids that the generator gives.
unfoldable pub start :
    Env → Host → List Text → Text → Option Text → StartOptions → Manager → Manager × StartReply
unfolding resolve_workspace
start env host ids goal workspace o m =
    if m.shutting_down
    then (m, not_started (lit "shutting_down"))
    else start_in env host ids goal o m (resolve_workspace host workspace)

-- `startChildTask`
unfoldable pub start_child :
    Env → Host → List Text → Text → Text → Option Text → Manager → Manager × StartReply
start_child env host ids parent_id goal workspace m = elim (lookup parent_id m.tasks) [
  | none ↦ (m, not_started (lit "parent_not_found"))
  | some p ↦
      start env host ids goal (some (text_or (text_of workspace) p.task.workspace))
        (record no_options {
          parent_task_id = some parent_id;
          project_id = p.task.project_id;
          llm_profile_id = p.task.llm_profile_id;
          memory_mode = some (mode_name p.task.memory_mode);
        })
        m
]

-- `rerun`
unfoldable pub rerun : Env → Host → List Text → Text → Manager → Manager × StartReply
rerun env host ids id m =
    if m.shutting_down then (m, not_started (lit "shutting_down")) else elim (lookup id m.tasks) [
      | none ↦ (m, not_started (lit "not_found"))
      | some w ↦
          (let goal = trim (text_or w.task.initial_goal w.task.goal) in
            start env host ids goal (some (text_or w.task.workspace_label w.task.workspace))
              (record no_options {
                title = some (text_or w.task.title goal);
                project_id = w.task.project_id;
                llm_profile_id = w.task.llm_profile_id;
                memory_mode = some (mode_name w.task.memory_mode);
              })
              m)
    ]

-- A public call on the task of an id.
unfoldable pub on_task : Text → (World → World × Reply) → Manager → Manager × Reply
on_task id f m = elim (lookup id m.tasks) [
  | none ↦ (m, refused (lit "not_found"))
  | some w ↦ (record m { tasks = insert id (f w).0 m.tasks }, (f w).1)
]

-- `continueTask`
unfoldable pub continue_by_id : Env → Text → Json → Manager → Manager × Reply
unfolding on_task
continue_by_id env id input m =
    if m.shutting_down
    then (m, refused (lit "shutting_down"))
    else on_task id (continue_task env input) m

-- `resolveApproval` and `terminate`, which `cancel` calls.
unfoldable pub resolve_by_id : Env → Text → Text → Bool → Manager → Manager × Reply
unfolding on_task
resolve_by_id env id approval_id approved m =
    on_task id (resolve_approval env approval_id approved) m

unfoldable pub terminate_by_id : Env → Text → Manager → Manager × Reply
unfolding on_task
terminate_by_id env id m = on_task id (terminate env) m
