-- ===== src/Ledger/Capacity.antt =====
-- How many entries of the ledger run at once.
use Prim.Native.Nat.{max}
use ender.Prelude.{
  values, keep, lit, trim, text_of, is_empty, ℕ, ◌+◌, ◌-◌, ◌≤◌, ◌<◌, Bool, true, false, not, ◌&&◌,
  ◌||◌, List, [], ◌∷◌, Option, none, some, Text, Map, insert, ltb, leb, ◌==◌, if◌then◌else◌, ◌≡◌,
  refl, arith,
}
use ender.Task.Status.{Status, is_terminal, name_of}
use ender.Ledger.Entry.{Entry, is_running, is_pending}
use ender.Ledger.Manager.{Summary, TaskService, final_status}
use ender.Ledger.Reconcile.{
  fail_entry, finish_entry, sync_entry, sync_with, sync_all, count_running, dispatch_entry,
  dispatch_loop, dispatch_pending, reconcile, after_start, not_dispatched, slots_after,
}

abbrev pub runs : Entry → ℕ
runs e = if is_running e.status then 1 else 0

count_running-insert :
    (k : Text) (e : Entry) (m : Map Entry) → count_running (insert k e m) ≤ count_running m + runs e
unfolding count_running insert
count_running-insert k e [] = ground arith
count_running-insert k e ((j, d) ∷ m) = ground (arith, count_running-insert k e m)

final-not_running : (t : Status) → is_running (final_status t) ≡ false
final-not_running t = ground arith

if-runs : (b : Bool) (x y : Entry) (n : ℕ) → runs x ≤ n → runs y ≤ n → runs (if b then x else y) ≤ n
if-runs true x y n p q = p
if-runs false x y n p q = q

runs-fail : (now t m : Text) (e : Entry) (n : ℕ) → runs (fail_entry now t m e) ≤ n
unfolding fail_entry
runs-fail now t m e n = omega arith

runs-finish : (now : Text) (t : Summary) (e : Entry) (n : ℕ) → runs (finish_entry now t e) ≤ n
unfolding finish_entry
runs-finish now t e n = ground (arith, final-not_running t.status)

runs-sync_with : (now : Text) (t : Option Summary) (e : Entry) → runs (sync_with now t e) ≤ runs e
runs-sync_with now none e =
    runs-fail now (lit "task_not_found") (lit "Linked task could not be found.") e (runs e)
runs-sync_with now (some t) e =
    if-runs (is_terminal t.status) (finish_entry now t e)
      (record e { last_task_status = some (name_of t.status) }) (runs e)
      (runs-finish now t e (runs e)) (omega arith)

runs-sync :
    (now : Text) (f : Text → Option Summary) (e : Entry) → runs (sync_entry now f e) ≤ runs e
unfolding sync_entry
runs-sync now f e =
    let id = trim (text_of e.started_task_id) in
    let lost =
      fail_entry now (lit "missing_task_id")
        (lit "Running ledger entry is missing its linked task id.") e in
    if-runs (not (is_running e.status)) e (if is_empty id then lost else sync_with now (f id) e)
      (runs e) (omega arith)
      (if-runs (is_empty id) lost (sync_with now (f id) e) (runs e)
        (runs-fail now (lit "missing_task_id")
          (lit "Running ledger entry is missing its linked task id.") e (runs e))
        (runs-sync_with now (f id) e))

count_running-sync :
    (now : Text) (f : Text → Option Summary) (m : Map Entry)
    → count_running (sync_all now f m) ≤ count_running m
unfolding count_running sync_all
count_running-sync now f [] = omega arith
count_running-sync now f ((k, e) ∷ m) = omega (arith, runs-sync now f e, count_running-sync now f m)

runs-le_one : (e : Entry) → runs e ≤ 1
runs-le_one e = ground arith

-- The map that a dispatch leaves, by cases on its test.
if-count :
    {S D : Type 0} (b : Bool) (x y : S × Map Entry × D) (n : ℕ)
    → (b ≡ true → count_running x.1 ≤ n)
    → (b ≡ false → count_running y.1 ≤ n)
    → count_running (if b then x else y).1 ≤ n
if-count true x y n p q = p refl
if-count false x y n p q = q refl

if-count_pair :
    {S : Type 0} (b : Bool) (x y : S × Map Entry) (n : ℕ)
    → count_running x.1 ≤ n
    → (b ≡ false → count_running y.1 ≤ n)
    → count_running (if b then x else y).1 ≤ n
if-count_pair true x y n p q = p
if-count_pair false x y n p q = q refl

module _ {S : Type 0} (service : TaskService S) (max_agents : ℕ) where
  has_room :
      (c : ℕ)
      → 0 < max_agents
      → (not false && ltb 0 max_agents && leb max_agents c) ≡ false
      → c < max_agents
  has_room c h e = ground arith

  some_agents : (c : ℕ) → (max_agents == 0 || leb max_agents c) ≡ false → 0 < max_agents
  some_agents c e = ground arith

  dispatch_entry-bound :
      (now : Text) (e : Entry) (s : S) (m : Map Entry)
      → 0 < max_agents
      → count_running (dispatch_entry service max_agents now false e s m).1
        ≤ max (count_running m) max_agents
  unfolding dispatch_entry
  dispatch_entry-bound now e s m h =
      let started = service.start s e in
      let after = after_start now e started.1 in
      let full = not false && ltb 0 max_agents && leb max_agents (count_running m) in
      let n = max (count_running m) max_agents in
      if-count (is_running e.status) (s, m, not_dispatched (lit "entry_running"))
        (if full
          then (s, m, not_dispatched (lit "no_capacity"))
          else (started.0, insert e.id after.0 m, after.1))
        n (λ _. omega arith)
        (λ _.
          if-count full (s, m, not_dispatched (lit "no_capacity"))
            (started.0, insert e.id after.0 m, after.1) n (λ _. omega arith)
            (λ r. omega (
              arith,
              has_room (count_running m) h r,
              count_running-insert e.id after.0 m,
              runs-le_one after.0,
            )))

  dispatch_loop-bound :
      (now : Text) (es : List Entry) (slots : ℕ) (s : S) (m : Map Entry)
      → 0 < max_agents
      → count_running (dispatch_loop service max_agents now es slots s m).1
        ≤ max (count_running m) max_agents
  unfolding dispatch_loop
  dispatch_loop-bound now [] slots s m h = omega arith
  dispatch_loop-bound now (e ∷ es) slots s m h =
      let d = dispatch_entry service max_agents now false e s m in
      let rest =
        dispatch_loop service max_agents now es (slots_after service max_agents d.2 slots) d.0
          d.1 in
      if-count_pair (slots == 0) (s, m) rest (max (count_running m) max_agents) (omega arith)
        (λ _. omega (
          arith,
          dispatch_entry-bound now e s m h,
          dispatch_loop-bound now es (slots_after service max_agents d.2 slots) d.0 d.1 h,
        ))

  dispatch_pending-bound :
      (now : Text) (by_age : List Entry → List Entry) (s : S) (m : Map Entry)
      → count_running (dispatch_pending service max_agents now by_age s m).1
        ≤ max (count_running m) max_agents
  unfolding dispatch_pending
  dispatch_pending-bound now by_age s m =
      let n = count_running m in
      let es = by_age (keep (λ (e : Entry). is_pending e.status && e.auto_run) (values m)) in
      if-count_pair (max_agents == 0 || leb max_agents n) (s, m)
        (dispatch_loop service max_agents now es (max_agents - n) s m) (max n max_agents)
        (omega arith) (λ r. dispatch_loop-bound now es (max_agents - n) s m (some_agents n r))

  -- A reconciliation leaves at most `max_agents` entries running, or as many as it found, if those are
  -- more: whatever the task manager answers, in whatever order the entries are taken, and whether or not
  -- it dispatches. With a limit of 0 it starts nothing.
  pub reconcile-bound :
      (now : Text) (by_age : List Entry → List Entry) (dispatch : Bool) (s : S) (m : Map Entry)
      → count_running (reconcile service max_agents now by_age dispatch s m).1
        ≤ max (count_running m) max_agents
  unfolding reconcile
  reconcile-bound now by_age dispatch s m =
      let synced = sync_all now (service.summary s) m in
      if-count_pair dispatch (dispatch_pending service max_agents now by_age s synced) (s, synced)
        (max (count_running m) max_agents)
        (omega (
          arith,
          dispatch_pending-bound now by_age s synced,
          count_running-sync now (service.summary s) m,
        ))
        (λ _. omega (arith, count_running-sync now (service.summary s) m))
