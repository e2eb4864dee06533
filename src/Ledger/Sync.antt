-- ===== src/Ledger/Sync.antt =====
-- What a round of `_syncRunningEntries` establishes: src/runtime/taskLedgerManager.js.
use mathlib.Core.Path.{subst, sym}
use mathlib.Core.Option.{some-injective}
use ender.Prelude.{
  Bool, true, false, not, [], ◌∷◌, Option, none, some, Text, lit, trim, text_of, is_empty, Map,
  lookup, text_eq, if◌then◌else◌, ◌≡◌, refl, arith,
}
use ender.Task.Status.{Status, is_terminal, name_of}
use ender.Ledger.Entry.{Entry, is_running}
use ender.Ledger.Manager.{Summary, final_status}
use ender.Ledger.Reconcile.{fail_entry, finish_entry, sync_entry, sync_with, sync_all}

-- The task of an entry that still runs: it is known and has not ended, and the entry notes its status.
abbrev pub IsFollowing : (Text → Option Summary) → Entry → Type 0
IsFollowing f e =
    (t : Summary) × (is_empty (trim (text_of e.started_task_id)) ≡ false)
    × (f (trim (text_of e.started_task_id)) ≡ some t)
    × (is_terminal t.status ≡ false)
    × (e.last_task_status ≡ some (name_of t.status))

-- An entry that a round leaves alone: it does not run, or follows a task that has not ended.
pub data IsSettled : (Text → Option Summary) → Entry → Type 0 where
  over : {f : Text → Option Summary} {e : Entry} → is_running e.status ≡ false → IsSettled f e
  follows :
      {f : Text → Option Summary} {e : Entry}
      → is_running e.status ≡ true
      → IsFollowing f e
      → IsSettled f e

final-not_running : (t : Status) → is_running (final_status t) ≡ false
final-not_running t = ground arith

fail-IsSettled :
    (f : Text → Option Summary) (now t m : Text) (e : Entry) → IsSettled f (fail_entry now t m e)
unfolding fail_entry
fail-IsSettled f now t m e = over refl

finish-IsSettled :
    (f : Text → Option Summary) (now : Text) (t : Summary) (e : Entry)
    → IsSettled f (finish_entry now t e)
unfolding finish_entry
finish-IsSettled f now t e = over (final-not_running t.status)

if-IsSettled :
    (f : Text → Option Summary) (b : Bool) (x y : Entry)
    → (b ≡ true → IsSettled f x)
    → (b ≡ false → IsSettled f y)
    → IsSettled f (if b then x else y)
if-IsSettled f true x y p q = p refl
if-IsSettled f false x y p q = q refl

sync_with-IsSettled :
    (f : Text → Option Summary) (now : Text) (e : Entry) (a : Option Summary)
    → is_running e.status ≡ true
    → is_empty (trim (text_of e.started_task_id)) ≡ false
    → f (trim (text_of e.started_task_id)) ≡ a
    → IsSettled f (sync_with now a e)
sync_with-IsSettled f now e none r i h =
    fail-IsSettled f now (lit "task_not_found") (lit "Linked task could not be found.") e
sync_with-IsSettled f now e (some t) r i h =
    if-IsSettled f (is_terminal t.status) (finish_entry now t e)
      (record e { last_task_status = some (name_of t.status) }) (λ _. finish-IsSettled f now t e)
      (λ live. follows r (t, i, h, live, refl))

sync_entry-IsSettled :
    (now : Text) (f : Text → Option Summary) (e : Entry) → IsSettled f (sync_entry now f e)
unfolding sync_entry
sync_entry-IsSettled now f e =
    let id = trim (text_of e.started_task_id) in
    let lost =
      fail_entry now (lit "missing_task_id")
        (lit "Running ledger entry is missing its linked task id.") e in
    if-IsSettled f (not (is_running e.status)) e
      (if is_empty id then lost else sync_with now (f id) e) (λ idle. over (ground arith))
      (λ runs.
        if-IsSettled f (is_empty id) lost (sync_with now (f id) e)
          (λ _.
            fail-IsSettled f now (lit "missing_task_id")
              (lit "Running ledger entry is missing its linked task id.") e)
          (λ named. sync_with-IsSettled f now e (f id) (ground arith) named refl))

found-IsSettled :
    (f : Text → Option Summary) (b : Bool) (x : Entry) (o : Option Entry) {e : Entry}
    → IsSettled f x
    → (o ≡ some e → IsSettled f e)
    → (if b then some x else o) ≡ some e
    → IsSettled f e
found-IsSettled f true x o p q h = subst (IsSettled f) (some-injective x _ h) p
found-IsSettled f false x o p q h = q h

lookup-sync :
    (now : Text) (f : Text → Option Summary) (k : Text) (m : Map Entry) {e : Entry}
    → lookup k (sync_all now f m) ≡ some e
    → IsSettled f e
unfolding lookup sync_all
lookup-sync now f k [] h = absurd (ground arith)
lookup-sync now f k ((j, d) ∷ m) h =
    found-IsSettled f (text_eq j k) (sync_entry now f d) (lookup k (sync_all now f m))
      (sync_entry-IsSettled now f d) (lookup-sync now f k m) h

settled-follows :
    {f : Text → Option Summary} {e : Entry}
    → is_running e.status ≡ true
    → IsSettled f e
    → IsFollowing f e
settled-follows r (over idle) = absurd (ground arith)
settled-follows r (follows _ p) = p

-- After a round, every entry of the ledger that runs is linked to a task that the task manager knows and
-- that has not ended, and the entry notes that task's status.
pub running_has_task :
    (now : Text) (f : Text → Option Summary) (k : Text) (m : Map Entry) (e : Entry)
    → lookup k (sync_all now f m) ≡ some e
    → is_running e.status ≡ true
    → IsFollowing f e
running_has_task now f k m e h r = settled-follows r (lookup-sync now f k m h)

settled_stays :
    (now : Text) (f : Text → Option Summary) (e : Entry) → IsSettled f e → sync_entry now f e ≡ e
unfolding sync_entry
settled_stays now f e (over idle) = rw idle
settled_stays now f e (follows r (t, i, h, live, noted)) = rw (r, i, h, live, sym noted)

-- A round changes nothing that a round before it has settled, as long as the task manager's answers are
-- the same: no history item is added twice, and no time is moved.
pub sync_all_idem :
    (now later : Text) (f : Text → Option Summary) (m : Map Entry)
    → sync_all later f (sync_all now f m) ≡ sync_all now f m
unfolding sync_all
sync_all_idem now later f [] = refl
sync_all_idem now later f ((k, e) ∷ m) = rw (
  settled_stays later f (sync_entry now f e) (sync_entry-IsSettled now f e),
  sync_all_idem now later f m,
)
