-- ===== src/Tests/Sample.antt =====
-- The values that the tests share.
use ender.Prelude.{ℕ, true, false, [], ◌∷◌, Option, none, some, lit, ◌==◌}
use ender.Json.{string, object, end}
use ender.Approval.{Approval, Payload}
use ender.Task.Status.{Status, running, awaiting_approval, done}
use ender.Task.Record.{Task, World, Env, Run, Phase, idle, executing, saving_result, automatic}
use ender.Task.Host.{Host}

abbrev pub env : Env
env = record { now = lit "t1"; ticks = 7; writable = λ s. true; stack = lit "Error" }

abbrev pub host : Host
host = record {
  workdir = lit "/w";
  workspace_base = some (lit "/w/base");
  self_root = lit "/ender";
  auto_restart = false;
  default_profile = some (lit "openai");
  manager_profile = some (lit "openai");
  resolve = λ p. p;
  is_absolute = λ p. false;
  relative = λ a b. b;
  root_of = λ p. lit "/";
  exists = λ p. true;
  is_directory = λ p. true;
  owns_workspace = λ p. false;
}

abbrev pub task_in : Status → Option Run → Task
task_in status controller = record {
  id = lit "a";
  title = lit "Fix it";
  goal = lit "Fix it";
  execution_prompt = lit "Fix it";
  initial_goal = lit "Fix it";
  latest_prompt = lit "Fix it";
  status = status;
  started_at = lit "t0";
  finished_at = none;
  logs = [];
  subs = 4 ∷ [];
  result = none;
  run_count = 1;
  thread = record { role = lit "user"; content = string (lit "Fix it") } ∷ [];
  pending = [];
  workspace = lit "/w/x";
  workspace_label = lit "/w/x";
  project_id = none;
  llm_profile_id = none;
  memory_mode = automatic;
  ledger_entry_id = none;
  parent_task_id = none;
  child_task_ids = [];
  waiters = 9 ∷ [];
  auto_restart = false;
  controller = controller;
  deleted = false;
  timer = false;
}

abbrev pub phase_of_run : Phase → ℕ → Phase
phase_of_run p r = elim (r == 1) [ true ↦ p | false ↦ idle ]

-- A task in its first run, with a stream and a waiting caller.
abbrev pub busy : World
busy = record {
  task = task_in running (some (record { number = 1; aborted = false }));
  phase = phase_of_run executing;
  out = [];
}

-- The same task when its result is being saved.
abbrev pub saving : World
saving = record {
  task = task_in done (some (record { number = 1; aborted = false }));
  phase = phase_of_run saving_result;
  out = [];
}

-- A task that has ended.
abbrev pub ended_world : World
ended_world = record {
  task = record (task_in done none) { waiters = []; subs = [] };
  phase = λ r. idle;
  out = [];
}

abbrev pub permission : Payload
permission = record {
  id = none;
  kind = some (lit "exec");
  title = none;
  description = none;
  details = none;
  requested_at = none;
}

abbrev pub allowed_push : Approval
allowed_push = record {
  id = lit "p1";
  kind = lit "exec";
  title = lit "Push";
  description = lit "Push it";
  details = object end;
  requested_at = lit "t0";
}

abbrev pub asking : World
asking = record busy {
  task = record busy.task {
    status = awaiting_approval;
    pending = (lit "p1", record { approval = allowed_push; live = true }) ∷ [];
  };
}
