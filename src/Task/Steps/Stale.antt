-- ===== src/Task/Steps/Stale.antt =====
-- What a run can still do when it no longer controls its task, and what goes wrong when a save
-- fails or an abort comes from elsewhere.
use ender.Prelude.{ℕ, Bool, true, false, none, some, Text, ◌⊎◌, ◌≢◌, ◌≡◌, refl, arith}
use ender.Json.{Json}
use ender.Task.Status.{is_active, is_terminal, allowed, can_transition}
use ender.Task.Record.{Task, Run, World, Env, executing, saving_result, rejected}
use ender.Task.Publish.{transition, persist, push_and_send}
use ender.Task.Run.{controls, failed, caught, release, save_ended}

-- A run has lost its task when the task was deleted, has no run, or has one of another number or one
-- that was aborted.
abbrev pub IsStale : ℕ → Task → Type 0
IsStale r t =
    (t.deleted ≡ true)
    ⊎ (t.controller ≡ none)
    ⊎ ((c : Run) × (t.controller ≡ some c) × ((c.number ≢ r) ⊎ (c.aborted ≡ true)))

-- The task but for its run.
abbrev pub without_run : Task → Task
without_run t = record t { controller = none }

-- A run that another has replaced does not touch the task at all when it fails.
pub replaced_run_fails_silently :
    (env : Env) (r : ℕ) (is_abort : Bool) (message : Text) (w : World)
    → controls w.task.controller r ≡ false
    → (failed env r is_abort message w).task ≡ w.task
unfolding failed caught release
replaced_run_fails_silently env r is_abort message w h = rw h refl

-- When the save of a result fails, the run ends with an exception that nothing catches: the task
-- keeps its terminal status, its waiting callers are not answered and its streams are not closed.
pub failed_save_loses_waiters :
    (env : Env) (r : ℕ) (w : World)
    → w.phase r ≡ saving_result
    → w.task.controller ≡ some (record { number = r; aborted = false })
    → w.task.deleted ≡ false
    → is_terminal w.task.status ≡ true
    → (is_stopped : (ender.Task.Run.was_stopped w.task.status) ≡ false)
    → let x = save_ended env r false w in
      (x.phase r ≡ rejected)
      × (x.task.status ≡ w.task.status)
      × (x.task.waiters ≡ w.task.waiters)
      × (x.task.controller ≡ none)
unfolding save_ended caught push_and_send transition can_transition allowed release
failed_save_loses_waiters env r w p c d t s = ground arith

-- When the runner throws an abort error although nobody aborted the run, the task stays active while
-- no run controls it any more.
pub foreign_abort_strands_task :
    (env later : Env) (r : ℕ) (message : Text) (w : World)
    → w.phase r ≡ executing
    → w.task.controller ≡ some (record { number = r; aborted = false })
    → is_active w.task.status ≡ true
    → let x = save_ended later r true (failed env r true message w) in
      (x.task.status ≡ w.task.status)
      × (x.task.controller ≡ none)
      × (x.task.waiters ≡ w.task.waiters)
unfolding save_ended failed caught persist release
foreign_abort_strands_task env later r message w p c a = ground arith
