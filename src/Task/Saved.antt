-- ===== src/Task/Saved.antt =====
-- The record of a task on disk, `_serializeTask`, `_hydrateTask` and `_loadPersistedTasks` of
-- src/runtime/taskManager.js. A record that the program wrote has texts, numbers and lists where it
-- wants them; the reading of other logs and messages keeps their fields only.
pub mod Restored
pub mod Loading
use ender.Prelude.{
  ℕ, Bool, true, false, not, ◌&&◌, ◌||◌, List, [], ◌∷◌, ◌++◌, map, Option, none, some, Text, lit,
  text_eq, text_or, text_of, is_empty, non_empty, or_else, last_items, Map, insert, has,
  if◌then◌else◌,
}
use ender.Json.{Json, null, boolean, number, string, array, object, Fields, end, field, natural}
use ender.Json.Read.{
  member, member_of, string_of, string_if, string_or, js_string, array_items, items_of, truthy,
}
use ender.Approval.{Approval, Payload, Store, Pending, list, create_store}
use ender.Records.{Migrated, migrate_task, task_record_version, version_key}
use ender.Repository.{Loaded}
use ender.Task.Status.{Status, running, error, is_active, name_of, of_name}
use ender.Task.Record.{Task, World, Env, Log, Message, MemoryMode, idle}
use ender.Task.Publish.{
  max_logs, trim_logs, normalize_log, reject_pending, transition, Options, plain_options, persist,
}
use ender.Task.Run.{run_thread}
use ender.Task.Host.{Host}
use ender.Task.Manager.{should_restart, mode_of, mode_name}

abbrev pub text_or_null : Option Text → Json
text_or_null none = null
text_or_null (some []) = null
text_or_null (some (c ∷ s)) = string (c ∷ s)

abbrev pub result_or_null : Option Text → Json
result_or_null none = null
result_or_null (some s) = string s

abbrev pub log_json : Log → Json
log_json l = object (
    field (lit "t") (number (natural l.at))
      (field (lit "level") (string l.level) (field (lit "data") l.entry end)))

abbrev pub message_json : Message → Json
message_json m = object (field (lit "role") (string m.role) (field (lit "content") m.content end))

abbrev pub approval_json : Approval → Json
approval_json a = object (
    field (lit "id") (string a.id) (
      field (lit "type") (string a.kind) (
        field (lit "title") (string a.title) (
          field (lit "description") (string a.description) (
            field (lit "details") a.details
              (field (lit "requestedAt") (string a.requested_at) end))))))

abbrev pub list_json : List Json → Json
list_json js = array (items_of js)

-- `_serializeTask`: the fields in their order.
abbrev pub record_fields : Task → List (Text × Json)
record_fields t =
    (version_key, number (natural task_record_version))
    ∷ (lit "id", string t.id)
    ∷ (lit "title", string (text_or t.title t.goal))
    ∷ (lit "goal", string t.goal)
    ∷ (lit "executionPrompt", string (text_or t.execution_prompt t.goal))
    ∷ (lit "status", string (name_of t.status))
    ∷ (lit "startedAt", string t.started_at)
    ∷ (lit "finishedAt", text_or_null t.finished_at)
    ∷ (lit "logs", list_json (map log_json t.logs))
    ∷ (lit "result", result_or_null t.result)
    ∷ (lit "initialGoal", string (text_or t.initial_goal t.goal))
    ∷ (lit "latestPrompt", string (text_or t.latest_prompt t.goal))
    ∷ (lit "runCount", number (natural t.run_count))
    ∷ (lit "thread", list_json (map message_json t.thread))
    ∷ (lit "workspace", string t.workspace)
    ∷ (lit "workspaceLabel", string (text_or t.workspace_label t.workspace))
    ∷ (lit "projectId", text_or_null t.project_id)
    ∷ (lit "llmProfileId", text_or_null t.llm_profile_id)
    ∷ (lit "memoryMode", string (mode_name t.memory_mode))
    ∷ (lit "ledgerEntryId", text_or_null t.ledger_entry_id)
    ∷ (lit "parentTaskId", text_or_null t.parent_task_id)
    ∷ (lit "childTaskIds", list_json (map string t.child_task_ids))
    ∷ (lit "autoRestartOnInterruption", boolean t.auto_restart)
    ∷ (lit "pendingApprovals", list_json (map approval_json (list t.pending)))
    ∷ []

abbrev pub fields_of : List (Text × Json) → Fields
fields_of [] = end
fields_of ((k, v) ∷ rest) = field k v (fields_of rest)

unfoldable pub serialize_task : Task → Json
serialize_task t = object (fields_of (record_fields t))

-- A number of a record; `Number.isFinite(v) ? v : 0`.
abbrev pub count_in : Option Json → ℕ
count_in (some (number (natural n))) = n
count_in _ = 0

abbrev pub value_in : Option Json → Json
value_in none = null
value_in (some j) = j

abbrev pub log_of : Json → Log
log_of j = record {
  at = count_in (member (lit "t") j);
  level = string_of (member (lit "level") j);
  entry = value_in (member (lit "data") j);
}

abbrev pub message_in : Json → Message
message_in j = record {
  role = string_of (member (lit "role") j);
  content = value_in (member (lit "content") j);
}

-- What normalizeApproval reads of a stored approval.
abbrev pub payload_of : Json → Payload
payload_of j = record {
  id = string_if (member (lit "id") j);
  kind = string_if (member (lit "type") j);
  title = string_if (member (lit "title") j);
  description = string_if (member (lit "description") j);
  details = member (lit "details") j;
  requested_at = string_if (member (lit "requestedAt") j);
}

-- `data.result ?? null`
abbrev pub result_in : Option Json → Option Text
result_in none = none
result_in (some null) = none
result_in (some j) = some (js_string j)

-- `String(data.k || data.goal || d)`
abbrev pub text_in : Json → Text → Text → Text
text_in saved k d = text_or (string_of (member k saved)) (string_or (member (lit "goal") saved) d)

abbrev pub restart_flag : Host → Json → Option Json → Bool
restart_flag host saved (some (boolean b)) = b
restart_flag host saved _ =
    should_restart host (string_or (member (lit "workspace") saved) host.workdir)

abbrev pub profile_in : Host → Option Text → Option Text
profile_in host none = host.manager_profile
profile_in host (some s) = some s

-- The task that `_hydrateTask` builds, before it looks at an interruption.
unfoldable pub read_task : Env → Host → Json → Task
unfolding should_restart create_store mode_of of_name
read_task env host j = record {
  id = js_string (value_in (member (lit "id") j));
  title = text_in j (lit "title") (lit "Task");
  goal = string_of (member (lit "goal") j);
  execution_prompt = text_in j (lit "executionPrompt") [];
  status = of_name (string_or (member (lit "status") j) (name_of error));
  started_at = string_or (member (lit "startedAt") j) env.now;
  finished_at = string_if (member (lit "finishedAt") j);
  logs = last_items max_logs (map log_of (array_items (member (lit "logs") j)));
  subs = [];
  result = result_in (member (lit "result") j);
  initial_goal = text_in j (lit "initialGoal") [];
  latest_prompt = text_in j (lit "latestPrompt") [];
  run_count = count_in (member (lit "runCount") j);
  thread = map message_in (array_items (member (lit "thread") j));
  pending = create_store env.now (map payload_of (array_items (member (lit "pendingApprovals") j)));
  workspace = string_or (member (lit "workspace") j) host.workdir;
  workspace_label =
      text_or (string_of (member (lit "workspaceLabel") j))
        (string_or (member (lit "workspace") j) host.workdir);
  project_id = string_if (member (lit "projectId") j);
  llm_profile_id = profile_in host (string_if (member (lit "llmProfileId") j));
  memory_mode = mode_of (string_if (member (lit "memoryMode") j));
  ledger_entry_id = string_if (member (lit "ledgerEntryId") j);
  parent_task_id = string_if (member (lit "parentTaskId") j);
  child_task_ids = map js_string (array_items (member (lit "childTaskIds") j));
  waiters = [];
  auto_restart = restart_flag host j (member (lit "autoRestartOnInterruption") j);
  controller = none;
  deleted = false;
  timer = false;
}

abbrev pub interruption : Bool → Text
interruption true = lit "Task interrupted by server restart; auto-restarting thread"
interruption false = lit "Task interrupted by server restart before completion"

-- A task that was active when the server stopped: its approvals are rejected, and it restarts or ends.
unfoldable pub interrupted : Env → World → Option World
unfolding reject_pending transition
interrupted env w =
    let restart = w.task.auto_restart in
    let quiet = reject_pending w in
    let entry = normalize_log env (some (lit "warn")) (some (string (interruption restart))) in
    let logged = record quiet {
      task = record quiet.task { logs = trim_logs (quiet.task.logs ++ entry ∷ []) };
    } in
    transition env (if restart then running else error)
      (record plain_options {
        finished_at = some (if restart then none else some env.now);
        publish_status = false;
      })
      logged

abbrev pub fresh_world : Task → World
fresh_world t = record { task = t; phase = λ r. idle; out = [] }

abbrev pub hydrated : Env → Task → Option World
hydrated env t =
    if is_active t.status then interrupted env (fresh_world t) else some (fresh_world t)

-- `_hydrateTask`; `none` is an exception.
unfoldable pub hydrate_task : Env → Host → Json → Option World
unfolding read_task interrupted
hydrate_task env host j = hydrated env (read_task env host j)

-- A run that cannot start is reported and the task stays.
abbrev pub or_unstarted : World → Option World → World
or_unstarted w none = w
or_unstarted w (some x) = x

abbrev pub start_if : Env → Bool → World → World
start_if env false w = w
start_if env true w = or_unstarted w (run_thread env w)

-- A task that was read is put in the map and saved; if that succeeds and it runs, a run is started.
unfoldable pub settle_loaded : Env → Bool → World → World
unfolding persist run_thread
settle_loaded env saves w =
    start_if env (saves && text_eq (name_of w.task.status) (lit "running")) (persist w)

abbrev pub put_loaded : Env → Bool → Map World → Option World → Map World
put_loaded env saves m none = m
put_loaded env saves m (some w) = insert w.task.id (settle_loaded env saves w) m

abbrev pub load_migrated : Env → Host → Bool → Text → Map World → Option Migrated → Map World
load_migrated env host saves name m none = m
load_migrated env host saves name m (some r) =
    let id = member (lit "id") (object r.fields) in
    let known = js_string (value_in id) in
    if is_empty (string_of id) || has known m || not (text_eq known name)
    then m
    else put_loaded env saves m (hydrate_task env host (object r.fields))

abbrev pub load_parsed : Env → Host → Bool → Text → Map World → Option Json → Map World
load_parsed env host saves name m none = m
load_parsed env host saves name m (some j) = load_migrated env host saves name m (migrate_task j)

-- `_loadPersistedTasks`, over what the repository gives, each file with whether its save succeeds.
unfoldable pub load_tasks : Env → Host → List (Loaded × Bool) → Map World → Map World
unfolding hydrate_task migrate_task settle_loaded
load_tasks env host [] m = m
load_tasks env host ((l, saves) ∷ rest) m =
    load_tasks env host rest (load_parsed env host saves l.task_id m l.parsed)
