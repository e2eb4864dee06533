-- ===== src/Task/Record.antt =====
-- A task object of src/runtime/taskManager.js, with what surrounds it while it lives: the log of
-- what it sent, and where each of its runs stands.
use ender.Prelude.{ℕ, Bool, true, false, List, Option, Text, ◌==◌}
use ender.Json.{Json}
use ender.Approval.{Approval, Store, Decision}
use ender.Task.Status.{Status}

pub data MemoryMode : Type 0 where
  automatic manual off : MemoryMode

pub record Message : Type 0 where
  pub role : Text
  pub content : Json

pub record Log : Type 0 where
  pub at : ℕ
  pub level : Text
  pub entry : Json

-- `task.runController`: runs are numbered by `runCount`, which rises with each new controller.
pub record Run : Type 0 where
  pub number : ℕ
  pub aborted : Bool

-- `finishedAt` and the other fields that can be null are options. `subs` and `waiters` hold the
-- numbers of the streams and of the callers.
pub record Task : Type 0 where
  pub id : Text
  pub title : Text
  pub goal : Text
  pub execution_prompt : Text
  pub initial_goal : Text
  pub latest_prompt : Text
  pub status : Status
  pub started_at : Text
  pub finished_at : Option Text
  pub logs : List Log
  pub subs : List ℕ
  pub result : Option Text
  pub run_count : ℕ
  pub thread : List Message
  pub pending : Store
  pub workspace : Text
  pub workspace_label : Text
  pub project_id : Option Text
  pub llm_profile_id : Option Text
  pub memory_mode : MemoryMode
  pub ledger_entry_id : Option Text
  pub parent_task_id : Option Text
  pub child_task_ids : List Text
  pub waiters : List ℕ
  pub auto_restart : Bool
  pub controller : Option Run
  pub deleted : Bool
  pub timer : Bool

-- What a task sends out. `saved` is a call of the repository, `settled` the answer to an approval,
-- `woken` the end of a `waitForTask` call.
pub data Out : Type 0 where
  contract_event : List ℕ → Out
  status_event : Status → List ℕ → Out
  log_event : Log → List ℕ → Out
  approval_event : Approval → List ℕ → Out
  complete_event : Status → Option Text → List ℕ → Out
  notice : Text → Out
  ended : List ℕ → Out
  woken : List ℕ → Out
  settled : List Decision → Out
  saved : Out

-- Where a run of `_runThread` stands: in the runner, waiting for the repository after a result, an
-- error or an abort, at its end, or rejected by an exception that nothing catches.
pub data Phase : Type 0 where
  idle executing saving_result saving_error saving_abort finished rejected : Phase

-- `out` has the newest first.
pub record World : Type 0 where
  pub task : Task
  pub phase : ℕ → Phase
  pub out : List Out

-- What an operation reads of its surroundings: the clock as text and as a number, which streams
-- still take a write, and how an exception that it throws reads.
pub record Env : Type 0 where
  pub now : Text
  pub ticks : ℕ
  pub writable : ℕ → Bool
  pub stack : Text

abbrev pub set_phase : ℕ → Phase → World → World
set_phase r p w = record w {
  phase = λ k. let old = w.phase k in elim (k == r) [ true ↦ p | false ↦ old ];
}
