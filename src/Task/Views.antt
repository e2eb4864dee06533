-- ===== src/Task/Views.antt =====
-- What the manager shows of a task, `list` to `getTaskForContext` with `_taskSummary`, and the messages
-- that a run gets, `_getRunThread` and `_getExecutionThread`, src/runtime/taskManager.js. The text that
-- JSON.stringify gives is a parameter.
pub mod Paging
pub mod Window
use ender.Prelude.{
  ℕ, ◌+◌, ◌-◌, Bool, true, false, ◌&&◌, ◌||◌, List, [], ◌∷◌, map, Option, none, some, Text, lit,
  text_eq, text_or, non_empty, trim, is_empty, keep, length, drop, last_items, Map, lookup, values,
  if◌then◌else◌,
}
use ender.Json.{Json, null, string, sanitize}
use ender.Approval.{Approval, list, count}
use ender.Task.Status.{Status}
use ender.Task.Record.{Task, World, Log, Message}
use ender.Task.Content.{sanitize_thread_content, has_thread_content}
use ender.Task.Manager.{mode_name}

abbrev pub or_null : Option Text → Option Text
or_null none = none
or_null (some s) = non_empty s

-- The fields that all views have, with the same reading.
pub record TaskFields : Type 0 where
  pub id : Text
  pub title : Text
  pub goal : Text
  pub status : Status
  pub started_at : Text
  pub finished_at : Option Text
  pub run_count : ℕ
  pub log_count : ℕ
  pub workspace : Text
  pub workspace_label : Text
  pub project_id : Option Text
  pub llm_profile_id : Option Text
  pub memory_mode : Text
  pub ledger_entry_id : Option Text
  pub parent_task_id : Option Text
  pub child_task_ids : List Text

abbrev pub shown_with : Text → Task → TaskFields
shown_with label t = record {
  id = t.id;
  title = text_or t.title t.goal;
  goal = t.goal;
  status = t.status;
  started_at = t.started_at;
  finished_at = or_null t.finished_at;
  run_count = t.run_count;
  log_count = length t.logs;
  workspace = t.workspace;
  workspace_label = label;
  project_id = or_null t.project_id;
  llm_profile_id = or_null t.llm_profile_id;
  memory_mode = mode_name t.memory_mode;
  ledger_entry_id = or_null t.ledger_entry_id;
  parent_task_id = or_null t.parent_task_id;
  child_task_ids = t.child_task_ids;
}

pub record ListItem : Type 0 where
  pub shown : TaskFields
  pub pending_approval_count : ℕ

abbrev list_item : World → ListItem
list_item w = record {
  shown = shown_with w.task.workspace_label w.task;
  pending_approval_count = count w.task.pending;
}

-- `list`
unfoldable pub list_tasks : Map World → List ListItem
list_tasks m = map list_item (values m)

pub record View : Type 0 where
  pub shown : TaskFields
  pub result : Option Text
  pub pending_approvals : List Approval

abbrev view_of : Option World → Option View
view_of none = none
view_of (some w) = some (record {
  shown = shown_with w.task.workspace_label w.task;
  result = or_null w.task.result;
  pending_approvals = list w.task.pending;
})

-- `get`
unfoldable pub get_task : Text → Map World → Option View
get_task id m = view_of (lookup id m)

pub record Page : Type 0 where
  pub from : ℕ
  pub to : ℕ
  pub entries : List Log

abbrev pub page_of : ℕ → List Log → Page
page_of start logs = record {
  from = start;
  to = start + length (drop start logs);
  entries = drop start logs;
}

abbrev page_if : ℕ → Option World → Option Page
page_if start none = none
page_if start (some w) = some (page_of start w.task.logs)

-- `getLogs`, from a whole number.
unfoldable pub get_logs : Text → ℕ → Map World → Option Page
get_logs id start m = page_if start (lookup id m)

pub record Summary : Type 0 where
  pub shown : TaskFields
  pub result : Option Text
  pub pending_approval_count : ℕ
  pub logs : Option (List Log)

-- `_taskSummary`
unfoldable pub task_summary : Bool → Task → Summary
task_summary include_logs t = record {
  shown = shown_with (text_or t.workspace_label t.workspace) t;
  result = t.result;
  pending_approval_count = count t.pending;
  logs = if include_logs then some t.logs else none;
}

abbrev summary_if : Bool → Option World → Option Summary
summary_if include_logs none = none
summary_if include_logs (some w) = some (task_summary include_logs w.task)

-- `getTaskSummary`
unfoldable pub get_task_summary : Text → Bool → Map World → Option Summary
unfolding task_summary
get_task_summary id include_logs m = summary_if include_logs (lookup id m)

abbrev pub clean_message : Message → Message
clean_message e = record e { content = sanitize e.content }

pub record Context : Type 0 where
  pub summary : Summary
  pub thread : List Message
  pub latest_prompt : Text
  pub initial_goal : Text

abbrev context_of : Option World → Option Context
context_of none = none
context_of (some w) = some (record {
  summary = task_summary false w.task;
  thread = map clean_message w.task.thread;
  latest_prompt = text_or w.task.latest_prompt w.task.goal;
  initial_goal = text_or w.task.initial_goal w.task.goal;
})

-- `getTaskForContext`
unfoldable pub get_task_for_context : Text → Map World → Option Context
unfolding task_summary
get_task_for_context id m = context_of (lookup id m)

-- THREAD_CONTEXT_LIMIT
abbrev pub context_limit : ℕ
context_limit = 12

abbrev pub is_user : Message → Bool
is_user e = text_eq e.role (lit "user")

abbrev pub is_sent : Message → Bool
is_sent e = (is_user e || text_eq e.role (lit "assistant")) && has_thread_content (some e.content)

abbrev pub for_run : Message → Message
for_run e = record e { content = sanitize_thread_content (some e.content) }

-- `_getRunThread`
unfoldable pub run_messages : List Message → List Message
run_messages thread = keep is_sent (map for_run (last_items context_limit thread))

-- The first message of the user that says something.
abbrev says : Message → Bool
says e = is_user e && has_thread_content (some e.content)

unfoldable pub original_content : List Message → Json
original_content [] = null
original_content (e ∷ rest) =
    let later = original_content rest in
    if says e then sanitize_thread_content (some e.content) else later

-- The messages with the first one of the user replaced, if it is the original request.
unfoldable pub replace_request : (Json → Text) → Json → Json → List Message → Option (List Message)
replace_request print original prompt [] = none
replace_request print original prompt (e ∷ rest) =
    let later = replace_request print original prompt rest in
    if is_user e
    then (if text_eq (print e.content) (print original)
        then some (record e { content = prompt } ∷ rest)
        else none)
    else elim later [ none ↦ none | some es ↦ some (e ∷ es) ]

abbrev pub prompt_message : Text → Message
prompt_message prompt = record { role = lit "user"; content = string prompt }

abbrev pub with_prompt : Text → List Message → Option (List Message) → List Message
with_prompt prompt thread none = prompt_message prompt ∷ last_items (context_limit - 1) thread
with_prompt prompt thread (some es) = es

abbrev pub is_given : Option Text → Bool
is_given none = false
is_given (some []) = false
is_given (some (c ∷ s)) = true

-- `_getExecutionThread`
unfoldable pub execution_messages : (Json → Text) → Task → List Message
unfolding run_messages original_content replace_request
execution_messages print t =
    let thread = run_messages t.thread in
    let prompt = trim t.execution_prompt in
    let original = original_content t.thread in
    if is_given t.ledger_entry_id && is_given (some prompt)
    then with_prompt prompt thread (replace_request print original (string prompt) thread)
    else thread
