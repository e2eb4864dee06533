-- ===== src/Ledger/Reconcile.antt =====
-- `_syncRunningEntries`, `_dispatchPendingEntries`, `_dispatchEntry` and the public calls that use them,
-- of src/runtime/taskLedgerManager.js.
use ender.Prelude.{
  ℕ, ◌+◌, ◌-◌, Bool, true, false, not, ◌&&◌, ◌||◌, List, [], ◌∷◌, ◌++◌, Option, none, some, Text,
  lit, trim, text_of, text_or, is_empty, Map, insert, values, keep, leb, ltb, ◌==◌, if◌then◌else◌,
}
use ender.Task.Status.{Status, done, is_terminal, name_of}
use ender.Ledger.Entry.{
  Entry, EntryStatus, Stage, Feasibility, unknown, ready, Verification, skipped, Lifecycle,
  is_running, is_pending, no_outcome, append_stage,
}
use ender.Ledger.Manager.{
  Summary, Started, task_started, start_failed, TaskService, final_status, final_error,
}

-- An entry that lost its task.
unfoldable pub fail_entry : Text → Text → Text → Entry → Entry
fail_entry now status message e = record e {
  status = EntryStatus.failed;
  completed_at = some now;
  updated_at = now;
  last_task_status = some status;
  last_error = some message;
}

abbrev pub is_done : Status → Bool
is_done done = true
is_done _ = false

-- `if (entry.lifecycle.feasibility.outcome === "unknown")`
abbrev pub close_outcome : Feasibility → Bool → Text → Lifecycle → Lifecycle
close_outcome unknown ok at l = record l {
  feasibility = record {
    outcome = if ok then ready else Feasibility.blocked;
    summary = some (
        if ok
        then lit "The linked worker completed the request without structured feasibility reporting."
        else lit "The linked worker ended before structured feasibility reporting completed.");
    updated_at = some at;
  };
}
close_outcome _ ok at l = l

unfoldable pub close_feasibility : Bool → Text → Lifecycle → Lifecycle
close_feasibility ok at l = close_outcome l.feasibility.outcome ok at l

abbrev pub closing_summary : Bool → Text
closing_summary ok =
    if ok
    then lit "The worker backend completed without structured verification evidence."
    else lit "Verification did not complete before the worker stopped."

-- `if (entry.lifecycle.verification.status === "pending")`
unfoldable pub close_status : Verification → Bool → Text → Lifecycle → Lifecycle
unfolding append_stage
close_status Verification.pending ok at l =
    append_stage Stage.verify (some (closing_summary ok)) at (record l {
      verification = record {
        status = if ok then skipped else Verification.failed;
        summary = some (closing_summary ok);
        evidence = [];
        updated_at = some at;
      };
    })
close_status _ ok at l = l

unfoldable pub close_verification : Bool → Text → Lifecycle → Lifecycle
unfolding close_status
close_verification ok at l = close_status l.verification.status ok at l

-- `typeof result === "string" && result.trim() ? result.trim() : lastError || null`
abbrev pub outcome_summary : Option Text → Option Text → Option Text
outcome_summary none err = err
outcome_summary (some s) err = if is_empty (trim s) then err else some (trim s)

unfoldable pub finish_entry : Text → Summary → Entry → Entry
unfolding close_feasibility close_verification append_stage
finish_entry now t e =
    let at = text_or (text_of t.finished_at) now in
    let err = final_error t.status in
    let summary = outcome_summary t.result err in
    let closed =
      close_verification (is_done t.status) at
        (close_feasibility (is_done t.status) at e.lifecycle) in
    record e {
      status = final_status t.status;
      completed_task_id = some t.id;
      completed_at = some at;
      updated_at = at;
      last_task_status = some (name_of t.status);
      last_error = err;
      result = t.result;
      lifecycle = append_stage Stage.finalize summary at (record closed {
        outcome = record {
          status = some (final_status t.status);
          summary = summary;
          updated_at = some at;
        };
      });
    }

abbrev pub sync_with : Text → Option Summary → Entry → Entry
sync_with now none e =
    fail_entry now (lit "task_not_found") (lit "Linked task could not be found.") e
sync_with now (some t) e =
    if is_terminal t.status
    then finish_entry now t e
    else record e { last_task_status = some (name_of t.status) }

-- One round of `_syncRunningEntries`.
unfoldable pub sync_entry : Text → (Text → Option Summary) → Entry → Entry
unfolding fail_entry finish_entry
sync_entry now summary e =
    let id = trim (text_of e.started_task_id) in
    if not (is_running e.status)
    then e
    else if is_empty id
    then fail_entry now (lit "missing_task_id")
        (lit "Running ledger entry is missing its linked task id.") e
    else sync_with now (summary id) e

unfoldable pub sync_all : Text → (Text → Option Summary) → Map Entry → Map Entry
sync_all now summary [] = []
sync_all now summary ((k, e) ∷ m) = (k, sync_entry now summary e) ∷ sync_all now summary m

-- `_countRunningEntries`
unfoldable pub count_running : Map Entry → ℕ
count_running [] = 0
count_running ((k, e) ∷ m) = (if is_running e.status then 1 else 0) + count_running m

-- The answer of `_dispatchEntry`.
pub data Dispatched : Type 0 where
  dispatched : Text → Dispatched
  not_dispatched : Text → Dispatched

unfoldable pub mark_started : Text → Text → Entry → Entry
unfolding append_stage
mark_started now task e = record e {
  status = EntryStatus.running;
  updated_at = now;
  started_task_id = some task;
  started_at = some now;
  completed_task_id = none;
  completed_at = none;
  last_task_status = some (lit "running");
  last_error = none;
  result = none;
  attempt_count = e.attempt_count + 1;
  lifecycle =
      append_stage Stage.intake (some (lit "Dispatched to thread " ++ task)) now
        (record e.lifecycle { outcome = no_outcome });
}

abbrev pub after_start : Text → Entry → Started → Entry × Dispatched
after_start now e (task_started task) = (mark_started now task e, dispatched task)
after_start now e (start_failed err) =
    (fail_entry now (lit "start_failed") err e, not_dispatched (lit "task_start_failed"))

module _ {S : Type 0} (service : TaskService S) (max_agents : ℕ) where
  -- `_dispatchEntry` on an entry of the map, up to its save.
  unfoldable pub dispatch_entry : Text → Bool → Entry → S → Map Entry → S × Map Entry × Dispatched
  unfolding mark_started fail_entry
  dispatch_entry now ignore_capacity e s m =
      let (s', answer) = service.start s e in
      let (e', reply) = after_start now e answer in
      if is_running e.status
      then (s, m, not_dispatched (lit "entry_running"))
      else if not ignore_capacity && ltb 0 max_agents && leb max_agents (count_running m)
      then (s, m, not_dispatched (lit "no_capacity"))
      else (s', insert e.id e' m, reply)

  abbrev pub slots_after : Dispatched → ℕ → ℕ
  slots_after (dispatched task) n = n - 1
  slots_after (not_dispatched err) n = n

  -- The loop of `_dispatchPendingEntries` over the entries that were pending when it began.
  unfoldable pub dispatch_loop : Text → List Entry → ℕ → S → Map Entry → S × Map Entry
  dispatch_loop now [] slots s m = (s, m)
  dispatch_loop now (e ∷ es) slots s m =
      let (s', m', reply) = dispatch_entry now false e s m in
      let next = dispatch_loop now es (slots_after reply slots) s' m' in
      if slots == 0 then (s, m) else next

  -- `_dispatchPendingEntries`; `by_age` sorts by the time of creation.
  unfoldable pub dispatch_pending : Text → (List Entry → List Entry) → S → Map Entry → S × Map Entry
  dispatch_pending now by_age s m =
      let pending = by_age (keep (λ (e : Entry). is_pending e.status && e.auto_run) (values m)) in
      let started = dispatch_loop now pending (max_agents - count_running m) s m in
      if max_agents == 0 || leb max_agents (count_running m) then (s, m) else started

  -- `reconcile`, when no other reconciliation is under way.
  unfoldable pub reconcile : Text → (List Entry → List Entry) → Bool → S → Map Entry → S × Map Entry
  reconcile now by_age dispatch s m =
      let synced = sync_all now (service.summary s) m in
      let full = dispatch_pending now by_age s synced in if dispatch then full else (s, synced)
