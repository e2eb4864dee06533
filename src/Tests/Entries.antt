-- ===== src/Tests/Entries.antt =====
-- Tests of the task ledger.
use Prim.Native.Nat.{max}
use ender.Prelude.{
  ℕ, ◌+◌, ◌≤◌, true, [], ◌∷◌, none, some, Text, lit, trim, is_space, text_eq, lower, Map, lookup,
  if◌then◌else◌, ◌≡◌, refl,
}
use ender.Json.{Json, string, object, field, end}
use ender.Json.Read.{is_truthy, is_not_false, string_if, js_string, string_of}
use ender.Task.Status.{Status, name_of}
use ender.Ledger.Normalize.{
  normalize_strings, split_lines, derive_title, normalize_source, normalize_task_type,
}
use ender.Ledger.Entry.{Entry, EntryStatus, is_running, editable_of}
use ender.Ledger.Validate.{
  valid, NewEntry, Changes, validate_create, validate_update, required, status_change, workspace_of,
}
use ender.Ledger.Manager.{Summary, TaskService, task_started, new_entry, update_entry}
use ender.Ledger.Reconcile.{mark_started, sync_all, sync_entry, count_running, reconcile}
use ender.Ledger.Capacity.{reconcile-bound}
use ender.Ledger.Sync.{running_has_task, sync_all_idem, IsFollowing}
use ender.Ledger.History.{entry_after, Becomes, same, then_step, task_asked, Extends}
use ender.Ledger.Growth.{history_kept}
use ender.Ledger.Guards.{update_keeps_running}

abbrev wanted : NewEntry
wanted = record {
  title = lit "Tests";
  prompt = lit "Add tests";
  task_type = lit "generic";
  workspace = none;
  auto_run = true;
  source = none;
  success_criteria = [];
  constraints = [];
  verification_plan = [];
  created_by_task_id = none;
}

abbrev fresh : Entry
fresh = new_entry (lit "t0") (lit "e1") wanted

abbrev started : Entry
started = mark_started (lit "t1") (lit "task") fresh

abbrev live : Summary
live = record { id = lit "task"; status = Status.running; finished_at = none; result = none }

abbrev service : TaskService ℕ
service = record {
  start = λ (n : ℕ) (e : Entry). (n + 1, task_started (lit "task"));
  summary = λ (n : ℕ) (t : Text). if text_eq t (lit "task") then some live else none;
}

abbrev entries : Map Entry
entries = (lit "e1", started) ∷ (lit "e2", new_entry (lit "t0") (lit "e2") wanted) ∷ []

reconcile-bound_example :
    count_running (reconcile service 1 (lit "t2") (λ es. es) true 0 entries).1
    ≤ max (count_running entries) 1
reconcile-bound_example = reconcile-bound service 1 (lit "t2") (λ es. es) true 0 entries

sync_all_idem_example :
    sync_all (lit "t3") (service.summary 0) (sync_all (lit "t2") (service.summary 0) entries)
    ≡ sync_all (lit "t2") (service.summary 0) entries
sync_all_idem_example = sync_all_idem (lit "t2") (lit "t3") (service.summary 0) entries

running_has_task_example : IsFollowing (service.summary 0) started
unfolding mark_started
running_has_task_example =
    running_has_task (lit "t2") (service.summary 0) (lit "e1") entries started found refl
  where
    found : lookup (lit "e1") (sync_all (lit "t2") (service.summary 0) entries) ≡ some started
    found =
        unfold name_of sync_all sync_entry mark_started new_entry lookup text_eq trim is_space
          lit in
        refl

once_started : Becomes fresh started
once_started = then_step (same fresh) (task_asked (lit "t1") (task_started (lit "task")) fresh)

history_kept_example : Extends fresh.lifecycle started.lifecycle
history_kept_example = history_kept once_started

abbrev cancel_input : Json
cancel_input = object (field (lit "status") (string (lit "Canceled")) end)

abbrev cancel : Changes
cancel = record {
  title = none;
  prompt = none;
  task_type = none;
  workspace = none;
  auto_run = none;
  source = none;
  success_criteria = none;
  constraints = none;
  verification_plan = none;
  status = some EntryStatus.canceled;
}

cancel_valid : validate_update cancel_input ≡ valid cancel
unfolding validate_update required status_change editable_of workspace_of js_string string_of lower
    trim is_space text_eq lit
cancel_valid = refl

update_keeps_running_example :
    is_running (entry_after started (update_entry (lit "t2") cancel started)).status
    ≡ is_running started.status
update_keeps_running_example =
    update_keeps_running (lit "t2") cancel_input cancel started cancel_valid

abbrev prompt_input : Json
prompt_input = object (field (lit "prompt") (string (lit "Add tests")) end)

abbrev requested : NewEntry
requested = record {
  title = lit "Add tests";
  prompt = lit "Add tests";
  task_type = lit "generic";
  workspace = none;
  auto_run = true;
  source = none;
  success_criteria = [];
  constraints = [];
  verification_plan = [];
  created_by_task_id = none;
}

request_valid : validate_create prompt_input ≡ valid requested
unfolding validate_create derive_title normalize_source normalize_task_type normalize_strings
    workspace_of js_string string_of lower trim is_space split_lines text_eq lit is_truthy
    is_not_false string_if
request_valid = refl
