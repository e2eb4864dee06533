-- ===== src/Ledger/Growth.antt =====
-- No call that changes an entry loses a part of its stage history: src/runtime/taskLedgerManager.js.
use ender.Prelude.{
  Bool, true, false, [], ◌++◌, Option, none, some, Text, lower, lit, not, trim, is_empty, ◌&&◌,
  text_of, text_or, if◌then◌else◌, refl,
}
use ender.Json.Read.{member}
use ender.Ledger.Normalize.{trimmed}
use ender.Task.Status.{is_terminal, name_of}
use ender.Ledger.Validate.{Changes, NewEntry}
use ender.Ledger.Entry.{
  Entry, EntryStatus, Stage, Lifecycle, Feasibility, unknown, ready, Verification, stage_of,
  feasibility_of, verification_of, create_lifecycle, is_running, skipped, no_outcome, append_stage,
}
use ender.Ledger.Stages.{
  record_stage_in, report_feasibility_in, report_verification_in, saved_entry, refused,
}
use ender.Ledger.Manager.{
  Summary, Started, task_started, start_failed, new_entry, update_entry, change_status, reset_entry,
  apply_status, edit_fields, same_status, leaves_running, final_status, final_error,
}
use ender.Ledger.Reconcile.{
  fail_entry, finish_entry, sync_entry, sync_with, mark_started, after_start, close_feasibility,
  close_outcome, close_verification, close_status, closing_summary, is_done, outcome_summary,
}
use ender.Ledger.History.{
  EntryStep, stage_recorded, feasibility_reported, plan_saved, verification_reported, updated,
  task_asked, synced, Becomes, same, then_step, ShowsLast, Extends, IsGrown, entry_after,
  IsGrown-same, IsGrown-trans, append_stage-IsGrown, stage-IsGrown, feasibility-IsGrown,
  plan-IsGrown, verification-IsGrown,
}

change_status-IsGrown :
    (now : Text) (s : EntryStatus) (e : Entry)
    → IsGrown e.lifecycle (change_status now s e).lifecycle
unfolding change_status reset_entry
change_status-IsGrown now EntryStatus.pending e =
    append_stage-IsGrown Stage.queued (some (lit "Ledger entry reset to pending")) now
      (record e.lifecycle { outcome = no_outcome })
change_status-IsGrown now EntryStatus.running e = IsGrown-same e.lifecycle
change_status-IsGrown now EntryStatus.completed e = IsGrown-same e.lifecycle
change_status-IsGrown now EntryStatus.failed e = IsGrown-same e.lifecycle
change_status-IsGrown now EntryStatus.canceled e = IsGrown-same e.lifecycle
change_status-IsGrown now EntryStatus.blocked e = IsGrown-same e.lifecycle
change_status-IsGrown now EntryStatus.needs_input e = IsGrown-same e.lifecycle
change_status-IsGrown now (EntryStatus.other t) e = IsGrown-same e.lifecycle

if-IsGrown :
    (l : Lifecycle) (b : Bool) (x y : Entry)
    → IsGrown l x.lifecycle
    → IsGrown l y.lifecycle
    → IsGrown l (if b then x else y).lifecycle
if-IsGrown l true x y p q = p
if-IsGrown l false x y p q = q

apply_status-IsGrown :
    (now : Text) (s : Option EntryStatus) (e : Entry)
    → IsGrown e.lifecycle (apply_status now s e).lifecycle
apply_status-IsGrown now none e = IsGrown-same e.lifecycle
apply_status-IsGrown now (some s) e =
    if-IsGrown e.lifecycle (same_status s e.status) e (change_status now s e)
      (IsGrown-same e.lifecycle) (change_status-IsGrown now s e)

if-reply-IsGrown :
    (e : Entry) (b : Bool) (r : Text) (d : Entry)
    → IsGrown e.lifecycle d.lifecycle
    → IsGrown e.lifecycle (entry_after e (if b then refused r else saved_entry d)).lifecycle
if-reply-IsGrown e true r d p = IsGrown-same e.lifecycle
if-reply-IsGrown e false r d p = p

update-IsGrown :
    (now : Text) (c : Changes) (e : Entry)
    → IsGrown e.lifecycle (entry_after e (update_entry now c e)).lifecycle
unfolding update_entry edit_fields
update-IsGrown now c e =
    if-reply-IsGrown e (is_running e.status && leaves_running c.status) (lit "entry_running")
      (record (apply_status now c.status (edit_fields c e)) { updated_at = now })
      (apply_status-IsGrown now c.status (edit_fields c e))

start-IsGrown :
    (now : Text) (s : Started) (e : Entry) → IsGrown e.lifecycle (after_start now e s).0.lifecycle
unfolding mark_started fail_entry
start-IsGrown now (task_started t) e =
    append_stage-IsGrown Stage.intake (some (lit "Dispatched to thread " ++ t)) now
      (record e.lifecycle { outcome = no_outcome })
start-IsGrown now (start_failed err) e = IsGrown-same e.lifecycle

close_outcome-IsGrown :
    (o : Feasibility) (ok : Bool) (at : Text) (l : Lifecycle) → IsGrown l (close_outcome o ok at l)
close_outcome-IsGrown unknown ok at l = IsGrown-same l
close_outcome-IsGrown ready ok at l = IsGrown-same l
close_outcome-IsGrown Feasibility.needs_input ok at l = IsGrown-same l
close_outcome-IsGrown Feasibility.blocked ok at l = IsGrown-same l
close_outcome-IsGrown Feasibility.rejected ok at l = IsGrown-same l

close_status-IsGrown :
    (v : Verification) (ok : Bool) (at : Text) (l : Lifecycle) → IsGrown l (close_status v ok at l)
unfolding close_status
close_status-IsGrown Verification.pending ok at l =
    append_stage-IsGrown Stage.verify (some (closing_summary ok)) at (record l {
      verification = record {
        status = if ok then skipped else Verification.failed;
        summary = some (closing_summary ok);
        evidence = [];
        updated_at = some at;
      };
    })
close_status-IsGrown Verification.running ok at l = IsGrown-same l
close_status-IsGrown Verification.passed ok at l = IsGrown-same l
close_status-IsGrown Verification.failed ok at l = IsGrown-same l
close_status-IsGrown skipped ok at l = IsGrown-same l

closed-IsGrown :
    (ok : Bool) (at : Text) (l : Lifecycle)
    → IsGrown l (close_verification ok at (close_feasibility ok at l))
unfolding close_feasibility close_verification
closed-IsGrown ok at l =
    let k = close_outcome l.feasibility.outcome ok at l in
    IsGrown-trans l k (close_status k.verification.status ok at k)
      (close_outcome-IsGrown l.feasibility.outcome ok at l)
      (close_status-IsGrown k.verification.status ok at k)

finish-IsGrown :
    (now : Text) (t : Summary) (e : Entry) → IsGrown e.lifecycle (finish_entry now t e).lifecycle
unfolding finish_entry
finish-IsGrown now t e =
    let at = text_or (text_of t.finished_at) now in
    let ok = is_done t.status in
    let summary = outcome_summary t.result (final_error t.status) in
    let closed = close_verification ok at (close_feasibility ok at e.lifecycle) in
    let shown = record closed {
      outcome = record {
        status = some (final_status t.status);
        summary = summary;
        updated_at = some at;
      };
    } in
    IsGrown-trans e.lifecycle shown (append_stage Stage.finalize summary at shown)
      (closed-IsGrown ok at e.lifecycle) (append_stage-IsGrown Stage.finalize summary at shown)

sync_with-IsGrown :
    (now : Text) (t : Option Summary) (e : Entry)
    → IsGrown e.lifecycle (sync_with now t e).lifecycle
unfolding fail_entry
sync_with-IsGrown now none e = IsGrown-same e.lifecycle
sync_with-IsGrown now (some t) e =
    if-IsGrown e.lifecycle (is_terminal t.status) (finish_entry now t e)
      (record e { last_task_status = some (name_of t.status) }) (finish-IsGrown now t e)
      (IsGrown-same e.lifecycle)

sync-IsGrown :
    (now : Text) (f : Text → Option Summary) (e : Entry)
    → IsGrown e.lifecycle (sync_entry now f e).lifecycle
unfolding sync_entry fail_entry
sync-IsGrown now f e =
    let id = trim (text_of e.started_task_id) in
    let lost =
      fail_entry now (lit "missing_task_id")
        (lit "Running ledger entry is missing its linked task id.") e in
    if-IsGrown e.lifecycle (not (is_running e.status)) e
      (if is_empty id then lost else sync_with now (f id) e) (IsGrown-same e.lifecycle)
      (if-IsGrown e.lifecycle (is_empty id) lost (sync_with now (f id) e) (IsGrown-same e.lifecycle)
        (sync_with-IsGrown now (f id) e))

step-IsGrown : {d e : Entry} → EntryStep d e → IsGrown d.lifecycle e.lifecycle
unfolding record_stage_in report_feasibility_in report_verification_in
step-IsGrown (stage_recorded now input e) =
    stage-IsGrown now input e (stage_of (trimmed (member (lit "stage") input)))
step-IsGrown (feasibility_reported now input e) =
    feasibility-IsGrown now input e
      (feasibility_of (lower (trimmed (member (lit "outcome") input))))
step-IsGrown (plan_saved now input e) = plan-IsGrown now input e
step-IsGrown (verification_reported now input e) =
    verification-IsGrown now input e
      (verification_of (lower (trimmed (member (lit "status") input))))
step-IsGrown (updated now c e) = update-IsGrown now c e
step-IsGrown (task_asked now s e) = start-IsGrown now s e
step-IsGrown (synced now f e) = sync-IsGrown now f e

Becomes-IsGrown : {d e : Entry} → Becomes d e → IsGrown d.lifecycle e.lifecycle
Becomes-IsGrown (same e) = IsGrown-same e.lifecycle
Becomes-IsGrown (then_step {c} {d} {e} p s) =
    IsGrown-trans c.lifecycle d.lifecycle e.lifecycle (Becomes-IsGrown p) (step-IsGrown s)

-- However the calls on an entry follow each other, its stage history only gets longer: what it held stays
-- at its head, in its order.
pub history_kept : {d e : Entry} → Becomes d e → Extends d.lifecycle e.lifecycle
history_kept p = (Becomes-IsGrown p).0

-- In whatever becomes of a new entry, the stage that is shown, with its summary and time, is the last item
-- of the stage history.
pub shows_last :
    (now id : Text) (v : NewEntry) (e : Entry)
    → Becomes (new_entry now id v) e
    → ShowsLast e.lifecycle
unfolding new_entry create_lifecycle
shows_last now id v e p = (Becomes-IsGrown p).1 ([], refl)
