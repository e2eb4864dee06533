-- ===== src/Task/Steps.antt =====
-- The life of one task object as a sequence of steps: each is a call of the public interface or an
-- event of a run, and none is interrupted, since JavaScript runs to the next await.
pub mod Invariant
mod RunKeeps
mod CallKeeps
pub mod Traces
pub mod Stale
mod LogBound
use ender.Prelude.{ℕ, Bool, true, false, List, [], ◌∷◌, Option, none, some, Text, if◌then◌else◌}
use ender.Json.{Json}
use ender.Approval.{Payload}
use ender.Task.Record.{Task, World, Env, Phase, executing}
use ender.Task.Run.{on_log, request_approval, workspace_prepared, returned, failed, save_ended}
use ender.Task.Calls.{
  continue_task, resolve_approval, terminate, delete_task, wait_for, wait_expired, subscribe,
  unsubscribe,
}

pub data Act : Type 0 where
  continues : Json → Act
  resolves : Text → Bool → Act
  terminates deletes : Act
  waits : ℕ → Option ℕ → Act
  gives_up joins leaves : ℕ → Act
  logs : ℕ → Option Text → Option Json → Act
  asks : List Text → ℕ → Payload → Act
  prepares : ℕ → Text → Act
  returns : ℕ → Text → Option Text → Act
  fails : ℕ → Bool → Text → Act
  saves : ℕ → Bool → Act

abbrev pub is_executing : Phase → Bool
is_executing executing = true
is_executing _ = false

-- The manager finds a task by its id, so a deleted one gets no call; and only a run that is in the
-- runner has events of the runner.
unfoldable pub step : Env → Act → World → World
step env (continues input) w = if w.task.deleted then w else (continue_task env input w).0
step env (resolves id approved) w =
    if w.task.deleted then w else (resolve_approval env id approved w).0
step env terminates w = if w.task.deleted then w else (terminate env w).0
step env deletes w = if w.task.deleted then w else (delete_task env w).0
step env (waits caller limit) w = if w.task.deleted then w else (wait_for caller limit w).0
step env (gives_up caller) w = wait_expired caller w
step env (joins s) w = if w.task.deleted then w else (subscribe s w).0
step env (leaves s) w = unsubscribe s w
step env (logs r level entry) w = if is_executing (w.phase r) then on_log env r level entry w else w
step env (asks ids r payload) w =
    if is_executing (w.phase r) then (request_approval env ids r payload w).0 else w
step env (prepares r path) w = if is_executing (w.phase r) then workspace_prepared r path w else w
step env (returns r text outcome) w =
    if is_executing (w.phase r) then returned env r text outcome w else w
step env (fails r is_abort message) w =
    if is_executing (w.phase r) then failed env r is_abort message w else w
step env (saves r ok) w = save_ended env r ok w

unfoldable pub run_acts : List (Env × Act) → World → World
run_acts [] w = w
run_acts ((env, a) ∷ rest) w = run_acts rest (step env a w)

-- Every call of the repository succeeds.
abbrev pub saves_succeed : List (Env × Act) → Bool
saves_succeed [] = true
saves_succeed ((env, saves r ok) ∷ rest) = if ok then saves_succeed rest else false
saves_succeed (_ ∷ rest) = saves_succeed rest
