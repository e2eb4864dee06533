-- ===== src/Ledger/Manager.antt =====
-- `TaskLedgerManager` of src/runtime/taskLedgerManager.js: creating, editing and deleting entries, and
-- the reconciliation with the tasks that run them. The task manager is a parameter.
use ender.Prelude.{
  Bool, true, false, not, ◌&&◌, Option, none, some, Text, lit, or_else, if◌then◌else◌,
}
use ender.Task.Status.{Status, done, canceled, terminated, blocked, needs_input}
use ender.Ledger.Validate.{NewEntry, Changes}
use ender.Ledger.Entry.{
  Entry, EntryStatus, Stage, is_running, no_outcome, create_lifecycle, append_stage,
}
use ender.Ledger.Stages.{EntryReply, saved_entry, refused}

-- What `getTaskSummary` says of a task, in the fields that the ledger reads.
pub record Summary : Type 0 where
  pub id : Text
  pub status : Status
  pub finished_at : Option Text
  pub result : Option Text

-- The answer of `start`: the id of the task, or its error.
pub data Started : Type 0 where
  task_started : Text → Started
  start_failed : Text → Started

-- What the ledger asks of the task manager, over its state. `start` gets the entry, from which the
-- ledger takes the goal, the workspace and the options.
pub record TaskService (S : Type 0) : Type 0 where
  pub start : S → Entry → S × Started
  pub summary : S → Text → Option Summary

-- Is this status the status of the entry?
abbrev pub same_status : EntryStatus → EntryStatus → Bool
same_status EntryStatus.pending EntryStatus.pending = true
same_status EntryStatus.running EntryStatus.running = true
same_status EntryStatus.completed EntryStatus.completed = true
same_status EntryStatus.failed EntryStatus.failed = true
same_status EntryStatus.canceled EntryStatus.canceled = true
same_status EntryStatus.blocked EntryStatus.blocked = true
same_status EntryStatus.needs_input EntryStatus.needs_input = true
same_status _ _ = false

unfoldable pub new_entry : Text → Text → NewEntry → Entry
unfolding create_lifecycle
new_entry now id v = record {
  id = id;
  title = v.title;
  prompt = v.prompt;
  task_type = v.task_type;
  workspace = v.workspace;
  auto_run = v.auto_run;
  source = v.source;
  success_criteria = v.success_criteria;
  constraints = v.constraints;
  verification_plan = v.verification_plan;
  created_by_task_id = v.created_by_task_id;
  created_at = now;
  updated_at = now;
  status = EntryStatus.pending;
  started_task_id = none;
  started_at = none;
  completed_task_id = none;
  completed_at = none;
  attempt_count = 0;
  last_task_status = none;
  last_error = none;
  result = none;
  lifecycle = create_lifecycle now;
}

-- The fields of an update, but the status.
unfoldable pub edit_fields : Changes → Entry → Entry
edit_fields c e = record e {
  title = or_else c.title e.title;
  prompt = or_else c.prompt e.prompt;
  task_type = or_else c.task_type e.task_type;
  workspace = or_else c.workspace e.workspace;
  auto_run = or_else c.auto_run e.auto_run;
  source = or_else c.source e.source;
  success_criteria = or_else c.success_criteria e.success_criteria;
  constraints = or_else c.constraints e.constraints;
  verification_plan = or_else c.verification_plan e.verification_plan;
}

unfoldable pub reset_entry : Text → Entry → Entry
unfolding append_stage
reset_entry now e = record e {
  status = EntryStatus.pending;
  started_task_id = none;
  started_at = none;
  completed_task_id = none;
  completed_at = none;
  last_task_status = none;
  last_error = none;
  result = none;
  lifecycle =
      append_stage Stage.queued (some (lit "Ledger entry reset to pending")) now
        (record e.lifecycle { outcome = no_outcome });
}

abbrev pub some_or : Option Text → Text → Option Text
some_or none d = some d
some_or (some s) d = some s

-- The change of status of an update, from a status that is not `running`.
unfoldable pub change_status : Text → EntryStatus → Entry → Entry
unfolding reset_entry
change_status now EntryStatus.pending e = reset_entry now e
change_status now EntryStatus.canceled e = record e {
  status = EntryStatus.canceled;
  completed_at = some_or e.completed_at now;
}
change_status now s e = record e { status = s }

abbrev pub apply_status : Text → Option EntryStatus → Entry → Entry
apply_status now none e = e
apply_status now (some s) e = if same_status s e.status then e else change_status now s e

-- `validation.value.status && validation.value.status !== "running"`
abbrev pub leaves_running : Option EntryStatus → Bool
leaves_running none = false
leaves_running (some s) = not (is_running s)

unfoldable pub update_entry : Text → Changes → Entry → EntryReply
unfolding edit_fields change_status
update_entry now c e =
    if is_running e.status && leaves_running c.status
    then refused (lit "entry_running")
    else saved_entry (record (apply_status now c.status (edit_fields c e)) { updated_at = now })

-- What becomes of an entry whose linked task has ended.
abbrev pub final_status : Status → EntryStatus
final_status done = EntryStatus.completed
final_status needs_input = EntryStatus.needs_input
final_status blocked = EntryStatus.blocked
final_status canceled = EntryStatus.canceled
final_status terminated = EntryStatus.canceled
final_status _ = EntryStatus.failed

abbrev pub final_error : Status → Option Text
final_error done = none
final_error needs_input =
    some (lit "Linked task needs additional information before it can continue.")
final_error blocked = some (lit "Linked task hit a blocker and could not complete autonomously.")
final_error terminated = some (lit "Linked task was terminated before completion.")
final_error canceled = some (lit "Linked task was canceled before completion.")
final_error _ = some (lit "Linked task ended with error status.")
