-- ===== src/Task/Saved/Loading.antt =====
-- What holds of the tasks that are read at the start, `_loadPersistedTasks` of
-- src/runtime/taskManager.js.
use ender.Prelude.{
  ℕ, if◌then◌else◌, Bool, true, false, List, [], ◌∷◌, Option, none, some, Text, lit, text_eq, Map,
  values, All, All-insert, if-holds, ◌≡◌, ◌≢◌, refl, sym, arith,
}
use mathlib.Core.Path.{subst}
use ender.Json.{Json, object}
use ender.Records.{Migrated, migrate_task}
use ender.Repository.{Loaded}
use ender.Task.Status.{
  Status, running, awaiting_approval, is_active, is_known, name_of, can_transition, allowed,
}
use ender.Task.Record.{Task, World, Env, Phase, set_phase}
use ender.Task.Publish.{persist, transition, reject_pending}
use ender.Task.Run.{run_thread, ◌>>=◌}
use ender.Task.Calls.{refused, continue_task}
use ender.Task.Host.{Host}
use ender.Task.Saved.{
  read_task, interrupted, fresh_world, hydrated, hydrate_task, start_if, or_unstarted,
  settle_loaded, put_loaded, load_migrated, load_parsed, load_tasks,
}
use ender.Task.Steps.Invariant.{Inv}

-- A task that was read and not started yet: nobody waits for it, it has no run, and if it is to be
-- restarted it is `running` with no approval open.
record IsRead (w : World) : Type 0 where
  alone : w.task.waiters ≡ []
  unowned : w.task.controller ≡ none
  kept : w.task.deleted ≡ false
  unasked : is_active w.task.status ≡ true → w.task.status ≡ running

interrupted-IsRead :
    (env : Env) (t : Task) {w : World}
    → t.waiters ≡ []
    → t.controller ≡ none
    → t.deleted ≡ false
    → interrupted env (fresh_world t) ≡ some w
    → IsRead w
unfolding interrupted transition reject_pending
interrupted-IsRead env t a c d h = ground arith

hydrated-IsRead :
    (env : Env) (t : Task) {w : World}
    → t.waiters ≡ []
    → t.controller ≡ none
    → t.deleted ≡ false
    → hydrated env t ≡ some w
    → IsRead w
hydrated-IsRead env t {w} a c d =
    if-holds (λ o. o ≡ some w → IsRead w) (is_active t.status) (interrupted env (fresh_world t))
      (some (fresh_world t)) (λ _. interrupted-IsRead env t a c d) (λ over h. ground arith)

hydrate-IsRead :
    (env : Env) (host : Host) (j : Json) {w : World} → hydrate_task env host j ≡ some w → IsRead w
unfolding hydrate_task read_task
hydrate-IsRead env host j h = hydrated-IsRead env (read_task env host j) refl refl refl h

-- Either the task runs with a new run, or it is not to run.
can_run :
    (s : Status) → text_eq (name_of s) (lit "running") ≡ true → can_transition s running ≡ true
unfolding can_transition allowed name_of lit text_eq
can_run running h = refl
can_run (Status.unknown n) h = refl
can_run _ h = cc

runs : (s : Status) → s ≡ running → text_eq (name_of s) (lit "running") ≡ true
unfolding name_of lit text_eq
runs s h = rw h refl

persist-IsRead : (w : World) → IsRead w → IsRead (persist w)
unfolding persist
persist-IsRead w r = ground arith

-- What `transition` gives when it does not throw, and then a run.
bound_if :
    {x : World} (b : Bool) (y : World) (k : World → World)
    → Inv (k y)
    → ((if b then some y else none) >>= (λ z. some (k z))) ≡ some x
    → Inv x
bound_if true y k v h = subst Inv (some-inj h) v
  where
    some-inj : {a b : World} → some a ≡ some b → a ≡ b
    some-inj e = cc
bound_if false y k v h = cc

set_phase-same : (n : ℕ) (p : Phase) (w : World) → (set_phase n p w).phase n ≡ p
set_phase-same n p w = ground arith

started-Inv : (env : Env) (w : World) {x : World} → IsRead w → run_thread env w ≡ some x → Inv x
unfolding run_thread transition
started-Inv env w r h =
    bound_if (can_transition w.task.status running) _ _
      (record {
        known = refl;
        numbered = refl;
        owned = λ _. (r.kept, refl, ground arith);
        busy = λ _ _ _. refl;
        asked = λ e. cc e;
        served = λ n. ground arith;
      })
      h

started :
    (env : Env) (w : World) → can_transition w.task.status running ≡ true → run_thread env w ≢ none
unfolding run_thread transition reject_pending
started env w h e = ground arith

or_unstarted-Inv :
    (env : Env) (w : World) (o : Option World)
    → IsRead w
    → o ≢ none
    → run_thread env w ≡ o
    → Inv (or_unstarted w o)
or_unstarted-Inv env w none r h e = absurd (h refl)
or_unstarted-Inv env w (some x) r h e = started-Inv env w r e

persist-can_run :
    (w : World)
    → can_transition w.task.status running ≡ true
    → can_transition (persist w).task.status running ≡ true
unfolding persist
persist-can_run w h = ground arith

start_if-Inv :
    (env : Env) (w : World)
    → IsRead w
    → can_transition w.task.status running ≡ true
    → Inv (start_if env true (persist w))
start_if-Inv env w r h =
    let x = persist w in
    or_unstarted-Inv env x (run_thread env x) (persist-IsRead w r)
      (started env x (persist-can_run w h)) refl

over-Inv :
    (w : World)
    → IsRead w
    → is_active w.task.status ≡ false
    → is_known (persist w).task.status ≡ true
    → Inv (persist w)
unfolding persist
over-Inv w r h k = ground arith

not_running :
    (s : Status)
    → (is_active s ≡ true → s ≡ running)
    → text_eq (name_of s) (lit "running") ≡ false
    → is_active s ≡ false
unfolding name_of lit text_eq
not_running running h e = cc
not_running awaiting_approval h e = cc (h refl)
not_running _ h e = refl

abbrev pub IsSettled : World → Type 0
IsSettled w = is_known w.task.status ≡ true → Inv w

settle-IsSettled : (env : Env) (w : World) → IsRead w → IsSettled (settle_loaded env true w)
unfolding settle_loaded
settle-IsSettled env w r = by_status (text_eq (name_of w.task.status) (lit "running")) refl
  where
    by_status :
        (b : Bool)
        → text_eq (name_of w.task.status) (lit "running") ≡ b
        → IsSettled (start_if env b (persist w))
    by_status true h k = start_if-Inv env w r (can_run w.task.status h)
    by_status false h k = over-Inv w r (not_running w.task.status r.unasked h) k

module _ (env : Env) (host : Host) where
  put-AllSettled :
      (m : Map World) (o : Option World)
      → ((w : World) → o ≡ some w → IsRead w)
      → All IsSettled (values m)
      → All IsSettled (values (put_loaded env true m o))
  put-AllSettled m none r h = h
  put-AllSettled m (some w) r h =
      All-insert IsSettled w.task.id (settle_loaded env true w) m
        (settle-IsSettled env w (r w refl)) h

  migrated-AllSettled :
      (name : Text) (m : Map World) (o : Option Migrated)
      → All IsSettled (values m)
      → All IsSettled (values (load_migrated env host true name m o))
  migrated-AllSettled name m none h = h
  migrated-AllSettled name m (some r) h =
      if-holds (λ x. All IsSettled (values x)) _ m
        (put_loaded env true m (hydrate_task env host (object r.fields))) (λ _. h)
        (λ _.
          put-AllSettled m (hydrate_task env host (object r.fields))
            (λ w. hydrate-IsRead env host (object r.fields)) h)

  parsed-AllSettled :
      (name : Text) (m : Map World) (o : Option Json)
      → All IsSettled (values m)
      → All IsSettled (values (load_parsed env host true name m o))
  parsed-AllSettled name m none h = h
  parsed-AllSettled name m (some j) h = migrated-AllSettled name m (migrate_task j) h

  -- When every save succeeds, each task of a known status that was read has the invariant of the
  -- tasks that run: it is over, or it has the one run that is under way.
  pub load_tasks-AllSettled :
      (entries : List (Loaded × Bool)) (m : Map World)
      → All (λ e. e.1 ≡ true) entries
      → All IsSettled (values m)
      → All IsSettled (values (load_tasks env host entries m))
  unfolding load_tasks
  load_tasks-AllSettled [] m s h = h
  load_tasks-AllSettled ((l, b) ∷ rest) m (e, s) h =
      load_tasks-AllSettled rest (load_parsed env host b l.task_id m l.parsed) s (
        subst (λ c. All IsSettled (values (load_parsed env host c l.task_id m l.parsed))) (sym e)
          (parsed-AllSettled l.task_id m l.parsed h))

hydrate-kept :
    (env : Env) (host : Host) (j : Json) {w : World}
    → hydrate_task env host j ≡ some w
    → (w.task.deleted ≡ false) × (w.task.controller ≡ none)
hydrate-kept env host j h = let r = hydrate-IsRead env host j h in (r.kept, r.unowned)

-- When the save of a task that is to restart fails, the task stays `running` without a run, and each
-- message to it is refused as `task_busy`.
pub unsaved_is_stranded :
    (env : Env) (host : Host) (j input : Json) {w : World}
    → hydrate_task env host j ≡ some w
    → w.task.status ≡ running
    → let x = settle_loaded env false w in
      (x.task.status ≡ running)
      × (x.task.controller ≡ none)
      × ((continue_task env input x).1 ≡ refused (lit "task_busy"))
unfolding settle_loaded persist continue_task
unsaved_is_stranded env host j input h s =
    let (d, c) = hydrate-kept env host j h in rw d rw s rw c (refl, refl, refl)
