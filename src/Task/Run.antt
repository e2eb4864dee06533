-- ===== src/Task/Run.antt =====
-- One run of a task, from `_runThread` of src/runtime/taskManager.js to its end. Each function is
-- what the program does between two awaits; an exception inside it is `none`.
use ender.Prelude.{
  ℕ, suc, Bool, true, false, not, ◌&&◌, ◌||◌, List, [], ◌∷◌, ◌++◌, Option, none, some, Text, lit,
  ◌==◌, if◌then◌else◌,
}
use ender.Json.{Json, string, object, field, end}
use ender.Approval.{Approval, Payload, Store, request}
use ender.Task.Status.{Status, running, awaiting_approval, error, canceled, terminated, of_outcome}
use ender.Task.Record.{
  Task, World, Env, Run, Phase, executing, saving_result, saving_error, saving_abort, finished,
  rejected, set_phase,
}
use ender.Task.Publish.{
  plain_options, transition, push_and_send, persist, schedule_persist, publish_terminal,
  publish_approval, reject_pending,
}

-- A field that is `none` may throw: `m` then `k`.
infixl 5 ◌>>=◌
abbrev pub ◌>>=◌ : Option World → (World → Option World) → Option World
none >>= k = none
some w >>= k = k w

abbrev pub controls : Option Run → ℕ → Bool
controls none r = false
controls (some c) r = c.number == r

abbrev pub not_aborted : Option Run → Bool
not_aborted none = false
not_aborted (some c) = not c.aborted

-- `isCurrentRun()`
unfoldable pub is_current : ℕ → Task → Bool
is_current r t = controls t.controller r && not_aborted t.controller && not t.deleted

abbrev pub was_stopped : Status → Bool
was_stopped canceled = true
was_stopped terminated = true
was_stopped _ = false

abbrev pub chat_entry : Text → Json → Json
chat_entry role content = object (
    field (lit "kind") (string (lit "chat"))
      (field (lit "role") (string role) (field (lit "content") content end)))

-- `_runThread` up to the call of the runner.
unfoldable pub run_thread : Env → World → Option World
unfolding reject_pending
run_thread env w =
    let quiet = reject_pending w in
    let r = suc quiet.task.run_count in
    let taken = record quiet {
      task = record quiet.task { controller = some (record { number = r; aborted = false }) };
    } in
    transition env running (record plain_options { clear_finished_at = true; schedule = true })
      taken
    >>= λ x. some (set_phase r executing (record x { task = record x.task { run_count = r } }))

-- `onLog(entry)`
unfoldable pub on_log : Env → ℕ → Option Text → Option Json → World → World
on_log env r level entry w = if is_current r w.task then push_and_send env level entry w else w

-- `_requestApproval`: the approval is stored before the status changes, so it stays when that throws.
-- The flag says that it threw.
unfoldable pub after_ask : Env → Approval → World → Option World → World × Bool
after_ask env a w none = (w, true)
after_ask env a w (some x) = (publish_approval env a x, false)

unfoldable pub ask : Env → Option (Store × Approval) → World → World × Bool
unfolding after_ask
ask env none w = (w, true)
ask env (some (pending, a)) w =
    let stored = record w { task = record w.task { pending = pending } } in
    after_ask env a stored
      (transition env awaiting_approval (record plain_options { schedule = true }) stored)

-- `requestApproval(payload)` of the run: one that is not current gets the answer `false` at once.
unfoldable pub request_approval : Env → List Text → ℕ → Payload → World → World × Bool
unfolding ask
request_approval env ids r payload w =
    if is_current r w.task
    then ask env (request ids env.now w.task.pending payload) w
    else (w, false)

-- `onWorkspacePrepared(path)`
unfoldable pub workspace_prepared : ℕ → Text → World → World
workspace_prepared r path w =
    if is_current r w.task
    then schedule_persist
        (record w { task = record w.task { workspace = path; workspace_label = path } })
    else w

-- The `finally` block.
unfoldable pub release : ℕ → Phase → World → World
release r p w = set_phase r p (
    if controls w.task.controller r
    then record w { task = record w.task { controller = none } }
    else w)

-- The `catch` block up to its await. An exception inside it is one that nothing catches.
abbrev pub or_rejected : ℕ → World → Option World → World
or_rejected r w none = release r rejected w
or_rejected r w (some x) = x

unfoldable pub caught : Env → ℕ → Bool → Text → World → World
unfolding release
caught env r is_abort message w =
    if not (controls w.task.controller r)
    then release r finished w
    else if not (not_aborted w.task.controller)
        || is_abort
        || w.task.deleted
        || was_stopped w.task.status
    then set_phase r saving_abort (persist w)
    else (let logged = push_and_send env (some (lit "error")) (some (string message)) w in
        or_rejected r logged (
          transition env error
            (record plain_options { finished_at = some (some env.now); result = some none }) logged
          >>= λ x. some (set_phase r saving_error (persist x))))

-- The runner returned: the answer is added to the thread and the status changes.
unfoldable pub answer : Env → Text → World → World
answer env text w =
    push_and_send env (some (lit "info")) (some (chat_entry (lit "assistant") (string text)))
      (record w {
        task = record w.task {
          thread = w.task.thread ++ record { role = lit "assistant"; content = string text } ∷ [];
        };
      })

abbrev pub or_caught : Env → ℕ → World → Option World → World
or_caught env r w none = caught env r false env.stack w
or_caught env r w (some x) = x

unfoldable pub returned : Env → ℕ → Text → Option Text → World → World
unfolding caught answer
returned env r text outcome w =
    if not (is_current r w.task) || was_stopped w.task.status
    then release r finished w
    else (let answered = answer env text w in
        or_caught env r answered (
          transition env (of_outcome outcome)
            (record plain_options { finished_at = some (some env.now); result = some (some text) })
            answered
          >>= λ x. some (set_phase r saving_result (persist x))))

-- The runner threw.
unfoldable pub failed : Env → ℕ → Bool → Text → World → World
unfolding caught
failed env r is_abort message w = caught env r is_abort message w

-- `_persistTask` ended while the run was saving its result, its error or its abort.
unfoldable pub result_saved : Env → ℕ → World → World
unfolding caught
result_saved env r w = elim (publish_terminal env (some (lit "task_completed")) w) [
  | none ↦ caught env r false env.stack w
  | some x ↦ release r finished x
]

unfoldable pub error_saved : Env → ℕ → World → World
error_saved env r w = elim (publish_terminal env (some (lit "task_failed")) w) [
  | none ↦ release r rejected w
  | some x ↦ release r finished x
]

unfoldable pub save_ended : Env → ℕ → Bool → World → World
unfolding result_saved error_saved
save_ended env r ok w = elim (w.phase r) [
  | saving_result ↦ elim ok [ true ↦ result_saved env r w | false ↦ caught env r false env.stack w ]
  | saving_error ↦ elim ok [ true ↦ error_saved env r w | false ↦ release r rejected w ]
  | saving_abort ↦ elim ok [ true ↦ release r finished w | false ↦ release r rejected w ]
  | _ ↦ w
]
