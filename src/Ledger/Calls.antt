-- ===== src/Ledger/Calls.antt =====
-- The public calls of `TaskLedgerManager` in src/runtime/taskLedgerManager.js that create, edit, delete
-- and start entries.
use ender.Prelude.{
  ℕ, true, ◌&&◌, List, Option, none, some, Text, lit, Map, lookup, insert, remove, fresh_key,
  if◌then◌else◌,
}
use ender.Json.{Json}
use ender.Ledger.Validate.{Checked, valid, invalid, NewEntry, validate_create, validate_update}
use ender.Ledger.Entry.{Entry, is_running, is_pending}
use ender.Ledger.Stages.{EntryReply, saved_entry, refused}
use ender.Ledger.Manager.{TaskService, new_entry, update_entry}
use ender.Ledger.Reconcile.{Dispatched, not_dispatched, dispatch_entry, reconcile}

module _ {S : Type 0} (service : TaskService S) (max_agents : ℕ) where
  abbrev pub create_with :
      Text
      → (List Entry → List Entry)
      → NewEntry
      → S
      → Map Entry
      → Option Text
      → S × Map Entry × Option Text
  create_with now by_age v s m none = (s, m, none)
  create_with now by_age v s m (some id) =
      let (s', m') =
        reconcile service max_agents now by_age true s (insert id (new_entry now id v) m) in
      (s', m', some id)

  abbrev pub create_valid :
      Text
      → List Text
      → (List Entry → List Entry)
      → S
      → Map Entry
      → Checked NewEntry
      → S × Map Entry × Option Text
  create_valid now ids by_age s m (invalid e) = (s, m, none)
  create_valid now ids by_age s m (valid v) = create_with now by_age v s m (fresh_key ids m)

  -- `create`; the id of the entry is `none` if the input is refused.
  unfoldable pub create :
      Text
      → List Text
      → (List Entry → List Entry)
      → Json
      → S
      → Map Entry
      → S × Map Entry × Option Text
  create now ids by_age input s m = create_valid now ids by_age s m (validate_create input)

  abbrev pub saved_update :
      Text
      → (List Entry → List Entry)
      → Text
      → S
      → Map Entry
      → EntryReply
      → S × Map Entry × EntryReply
  saved_update now by_age id s m (refused r) = (s, m, refused r)
  saved_update now by_age id s m (saved_entry e) =
      let saved = insert id e m in
      let (s', m') = reconcile service max_agents now by_age true s saved in
      if is_pending e.status && e.auto_run
      then (s', m', saved_entry e)
      else (s, saved, saved_entry e)

  abbrev pub update_found :
      Text
      → (List Entry → List Entry)
      → Text
      → Json
      → S
      → Map Entry
      → Option Entry
      → S × Map Entry × EntryReply
  update_found now by_age id input s m none = (s, m, refused (lit "not_found"))
  update_found now by_age id input s m (some e) = elim (validate_update input) [
    | invalid err ↦ (s, m, refused err)
    | valid c ↦ saved_update now by_age id s m (update_entry now c e)
  ]

  -- `update`; the reply has the entry before the reconciliation.
  unfoldable pub update :
      Text → (List Entry → List Entry) → Text → Json → S → Map Entry → S × Map Entry × EntryReply
  update now by_age id input s m = update_found now by_age id input s m (lookup id m)

  -- `runNow`
  unfoldable pub run_now : Text → Text → S → Map Entry → S × Map Entry × Dispatched
  run_now now id s m = elim (lookup id m) [
    | none ↦ (s, m, not_dispatched (lit "not_found"))
    | some e ↦ dispatch_entry service max_agents now true e s m
  ]

-- `delete`: the map that is left, or the `error` of the refusal.
pub data DeleteReply : Type 0 where
  removed : Map Entry → DeleteReply
  kept : Text → DeleteReply

abbrev pub delete_known : Text → Map Entry → Option Entry → DeleteReply
delete_known id m none = kept (lit "not_found")
delete_known id m (some e) =
    if is_running e.status then kept (lit "entry_running") else removed (remove id m)

unfoldable pub delete : Text → Map Entry → DeleteReply
delete id m = delete_known id m (lookup id m)
