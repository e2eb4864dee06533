-- ===== src/Task/Publish.antt =====
-- Sending, logging and the change of status: `_transitionTask` to `_closeSubscribers` of
-- src/runtime/taskManager.js.
use ender.Prelude.{
  ℕ, ◌-◌, Bool, true, false, not, List, [], ◌∷◌, ◌++◌, Option, none, some, Text, lit, keep, length,
  drop, ltb, text_or, text_of, or_else, if◌then◌else◌,
}
use ender.Json.{Json, string, sanitize}
use ender.Approval.{Approval, reject_all}
use ender.Task.Status.{Status, can_transition, is_terminal}
use ender.Task.Record.{
  Task, World, Env, Log, Run, Out, status_event, log_event, approval_event, complete_event, notice,
  ended, woken, settled, saved,
}

abbrev pub max_logs : ℕ
max_logs = 5000

pub emit : Out → World → World
emit o w = record w { out = o ∷ w.out }

-- `_safeBroadcast`: a stream whose write throws is dropped and ended.
unfoldable pub broadcast : Env → (List ℕ → Out) → World → World
unfolding emit
broadcast env event w =
    let live = keep env.writable w.task.subs in
    let dead = keep (λ s. not (env.writable s)) w.task.subs in
    record w { task = record w.task { subs = live }; out = ended dead ∷ event live ∷ w.out }

-- `_schedulePersist`
unfoldable pub schedule_persist : World → World
schedule_persist w = record w { task = record w.task { timer = true } }

-- `_persistTask`, up to the call of the repository.
unfoldable pub persist : World → World
unfolding emit
persist w =
    if w.task.deleted
    then w
    else record w { task = record w.task { timer = false }; out = saved ∷ w.out }

-- `logs.splice(0, logs.length - maxLogs)` when there are more.
unfoldable pub trim_logs : List Log → List Log
trim_logs logs = if ltb max_logs (length logs) then drop (length logs - max_logs) logs else logs

-- `_normalizeLog`
unfoldable pub normalize_log : Env → Option Text → Option Json → Log
normalize_log env level entry = record {
  at = env.ticks;
  level = text_or (text_of level) (lit "info");
  entry = sanitize (or_else entry (string []));
}

-- `_push`; the new item is what it returns.
unfoldable pub push : Env → Option Text → Option Json → World → World
unfolding schedule_persist
push env level entry w = schedule_persist (record w {
  task = record w.task { logs = trim_logs (w.task.logs ++ normalize_log env level entry ∷ []) };
})

-- `_push` followed by `_broadcastLog` of the item.
unfoldable pub push_and_send : Env → Option Text → Option Json → World → World
unfolding push broadcast
push_and_send env level entry w =
    broadcast env (log_event (normalize_log env level entry)) (push env level entry w)

-- The options of `_transitionTask`. `finished_at` and `result` are absent, null or a text.
pub record Options : Type 0 where
  pub clear_finished_at : Bool
  pub finished_at : Option (Option Text)
  pub result : Option (Option Text)
  pub publish_status : Bool
  pub schedule : Bool

abbrev pub plain_options : Options
plain_options = record {
  clear_finished_at = false;
  finished_at = none;
  result = none;
  publish_status = true;
  schedule = false;
}

unfoldable pub with_status : Status → Options → Task → Task
with_status next o t = record t {
  status = next;
  finished_at = or_else o.finished_at (if o.clear_finished_at then none else t.finished_at);
  result = or_else o.result t.result;
}

-- `_transitionTask`; `none` is the exception "Invalid task status transition".
unfoldable pub transition : Env → Status → Options → World → Option World
unfolding with_status broadcast schedule_persist
transition env next o w =
    if can_transition w.task.status next
    then some (
        let changed = record w { task = with_status next o w.task } in
        let sent =
          if o.publish_status then broadcast env (status_event next) changed else changed in
        if o.schedule then schedule_persist sent else sent)
    else none

-- `_resolveWaiters`
unfoldable pub resolve_waiters : World → World
resolve_waiters w = record w {
  task = record w.task { waiters = [] };
  out = woken w.task.waiters ∷ w.out;
}

-- `_closeSubscribers`
unfoldable pub close_subscribers : World → World
close_subscribers w = record w {
  task = record w.task { subs = [] };
  out = ended w.task.subs ∷ w.out;
}

-- `_notifyTaskEvent`
unfoldable pub notify : Option Text → World → World
notify none w = w
notify (some kind) w = record w { out = notice kind ∷ w.out }

-- `_publishTerminalState`; `none` is the exception for a status that is not terminal.
unfoldable pub publish_terminal : Env → Option Text → World → Option World
unfolding broadcast resolve_waiters notify close_subscribers
publish_terminal env kind w =
    if is_terminal w.task.status
    then some (
        close_subscribers (
          notify kind
            (resolve_waiters (broadcast env (complete_event w.task.status w.task.result) w))))
    else none

-- `_publishApprovalRequired`
unfoldable pub publish_approval : Env → Approval → World → World
unfolding broadcast
publish_approval env a w =
    let sent = broadcast env (approval_event a) w in
    record sent { out = notice (lit "approval_required") ∷ sent.out }

-- `approvalCoordinator.rejectAll(task)`
unfoldable pub reject_pending : World → World
reject_pending w = record w {
  task = record w.task { pending = [] };
  out = settled (reject_all w.task.pending) ∷ w.out;
}

-- `task.runController?.abort(...)`
abbrev pub abort_run : Option Run → Option Run
abort_run none = none
abort_run (some r) = some (record r { aborted = true })

unfoldable pub abort_controller : World → World
abort_controller w = record w { task = record w.task { controller = abort_run w.task.controller } }
