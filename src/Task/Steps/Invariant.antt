-- ===== src/Task/Steps/Invariant.antt =====
-- What holds of a task between two steps.
use ender.Prelude.{ℕ, ◌<◌, Bool, true, false, Option, none, some, length, ◌≡◌, ◌⊎◌}
use ender.Task.Status.{awaiting_approval, is_active, is_known}
use ender.Task.Record.{World, Run, Phase, executing, saving_result, saving_error}

abbrev pub IsNumbered : ℕ → Option Run → Type 0
IsNumbered n none = Unit
IsNumbered n (some c) = c.number ≡ n

abbrev pub is_saving : Phase → Bool
is_saving saving_result = true
is_saving saving_error = true
is_saving _ = false

abbrev pub the_run : ℕ → Option Run
the_run n = some (record { number = n; aborted = false })

pub record Inv (w : World) : Type 0 where
  pub known : is_known w.task.status ≡ true
  pub numbered : IsNumbered w.task.run_count w.task.controller
  pub owned :
      is_active w.task.status ≡ true
      → (w.task.deleted ≡ false)
        × (w.task.controller ≡ the_run w.task.run_count)
        × (w.phase w.task.run_count ≡ executing)
  pub busy :
      w.task.controller ≡ the_run w.task.run_count
      → w.phase w.task.run_count ≡ executing
      → w.task.deleted ≡ false
      → is_active w.task.status ≡ true
  pub asked : w.task.status ≡ awaiting_approval → 0 < length w.task.pending
  pub served :
      0 < length w.task.waiters
      → (is_active w.task.status ≡ true)
        ⊎ ((w.task.controller ≡ the_run w.task.run_count)
            × (is_saving (w.phase w.task.run_count) ≡ true))
