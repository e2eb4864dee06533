-- ===== src/Ledger/Dispatch.antt =====
-- The start of an entry's task by `_dispatchEntry`: src/runtime/taskLedgerManager.js.
use ender.Prelude.{
  ℕ, ◌+◌, ◌<◌, false, not, ◌&&◌, some, Text, text_eq, text_eq_iff, Map, lookup, insert,
  lookup-insert, leb, ltb, ◌≡◌, refl, arith,
}
use ender.Ledger.Entry.{Entry, EntryStatus, is_running}
use ender.Ledger.Manager.{TaskService, task_started}
use ender.Ledger.Reconcile.{dispatch_entry, mark_started, count_running, dispatched}

module _ {S : Type 0} (service : TaskService S) (max_agents : ℕ) where
  room_left : (c : ℕ) → c < max_agents → (not false && ltb 0 max_agents && leb max_agents c) ≡ false
  room_left c h = ground arith

  -- As long as there is room, an entry that does not run is started when its turn comes, whatever its
  -- status has become meanwhile: with a task that the task manager starts, it is the one entry that
  -- changes, it runs and is linked to that task, and one attempt more is counted.
  pub dispatch_entry_starts :
      (now : Text) (e : Entry) (s t : S) (m : Map Entry) (task : Text)
      → is_running e.status ≡ false
      → count_running m < max_agents
      → service.start s e ≡ (t, task_started task)
      → (d : Entry) × (dispatch_entry service max_agents now false e s m
          ≡ (t, insert e.id d m, dispatched task))
        × (lookup e.id (insert e.id d m) ≡ some d)
        × (d.status ≡ EntryStatus.running)
        × (d.started_task_id ≡ some task)
        × (d.attempt_count ≡ e.attempt_count + 1)
        × ((j : Text) → text_eq e.id j ≡ false → lookup j (insert e.id d m) ≡ lookup j m)
  unfolding dispatch_entry mark_started
  dispatch_entry_starts now e s t m task idle room h = (
    mark_started now task e,
    rw (h, idle, room_left (count_running m) room),
    rw (lookup-insert e.id e.id (mark_started now task e) m, (text_eq_iff e.id e.id).1 refl),
    refl,
    refl,
    refl,
    λ j other. rw (lookup-insert e.id j (mark_started now task e) m, other),
  )
