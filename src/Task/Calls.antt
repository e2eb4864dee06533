-- ===== src/Task/Calls.antt =====
-- The public calls on one task object: `continueTask`, `resolveApproval`, `terminate`, `delete`,
pub mod Laws
-- `waitForTask`, `sse` and `shutdown` of src/runtime/taskManager.js, once the task is found.
use ender.Prelude.{
  ℕ, zero, suc, Bool, true, false, not, ◌&&◌, ◌||◌, List, [], ◌∷◌, ◌++◌, Option, none, some, Text,
  lit, text_eq, text_or, is_empty, keep, ◌==◌, if◌then◌else◌, or_else,
}
use ender.Json.{Json, string, object, field, end}
use ender.Approval.{Approval, Resolution, resolve, list}
use ender.Task.Status.{Status, running, awaiting_approval, terminated, is_active, is_terminal}
use ender.Task.Record.{
  Task, World, Env, Message, MemoryMode, automatic, manual, off, settled, Out, contract_event,
  status_event, log_event, approval_event, complete_event, ended, Log,
}
use ender.Task.Publish.{
  plain_options, transition, push, push_and_send, persist, schedule_persist, publish_terminal,
  reject_pending, abort_controller, resolve_waiters, close_subscribers,
}
use ender.Task.Content.{ContinueInput, normalize_input, message_of, has_thread_content, summarize}
use ender.Task.Run.{run_thread, chat_entry}

-- `{ ok: true }`, or the `error` of `{ ok: false, error }`; `threw` is an exception.
pub data Reply : Type 0 where
  accepted : Reply
  refused : Text → Reply
  threw : Reply

unfoldable pub or_threw : World → Option World → World × Reply
or_threw w none = (w, threw)
or_threw w (some x) = (x, accepted)

abbrev pub known_mode : Option Text → Option MemoryMode
known_mode none = none
known_mode (some s) =
    if text_eq s (lit "auto")
    then some automatic
    else if text_eq s (lit "off")
    then some off
    else if text_eq s (lit "manual")
    then some manual
    else none

-- `if (llmProfileId) t.llmProfileId = llmProfileId`
abbrev pub chosen_profile : Option Text → Option Text → Option Text
chosen_profile none old = old
chosen_profile (some []) old = old
chosen_profile (some (c ∷ s)) old = some (c ∷ s)

-- The task as `continueTask` leaves it before the run starts.
unfoldable pub take_message : Env → ContinueInput → Json → World → World
unfolding schedule_persist push
take_message env input content w = schedule_persist (
    push env (some (lit "info")) (some (chat_entry (lit "user") content)) (record w {
      task = record w.task {
        llm_profile_id = chosen_profile input.llm_profile_id w.task.llm_profile_id;
        memory_mode = or_else (known_mode input.memory_mode) w.task.memory_mode;
        latest_prompt = text_or (summarize content) (text_or w.task.latest_prompt w.task.goal);
        thread = w.task.thread ++ record { role = lit "user"; content = content } ∷ [];
      };
    }))

unfoldable pub continue_task : Env → Json → World → World × Reply
unfolding or_threw
continue_task env raw w =
    let input = normalize_input raw in
    let content = message_of raw in
    let taken = take_message env input content w in
    if is_active w.task.status
    then (w, refused (lit "task_busy"))
    else if not (has_thread_content (some content))
    then (w, refused (lit "prompt_required"))
    else or_threw taken (run_thread env taken)

abbrev pub approval_entry : Bool → Resolution → Json
approval_entry approved r = object (
    field (lit "kind") (string (lit "approval")) (
      field (lit "action") (string (if approved then lit "granted" else lit "denied")) (
        field (lit "approvalId") (string r.approval.id) (
          field (lit "title") (string r.approval.title)
            (field (lit "type") (string r.approval.kind) end)))))

abbrev pub is_awaiting : Status → Bool
is_awaiting awaiting_approval = true
is_awaiting _ = false

abbrev pub schedule_reply : World × Reply → World × Reply
schedule_reply (w, threw) = (w, threw)
schedule_reply (w, r) = (schedule_persist w, r)

unfoldable pub resolved : Env → Bool → World → Option Resolution → World × Reply
unfolding or_threw
resolved env approved w none = (w, refused (lit "approval_not_found"))
resolved env approved w (some r) =
    let answered = record w {
      task = record w.task { pending = r.store };
      out = settled r.decisions ∷ w.out;
    } in
    let logged =
      push_and_send env (some (if approved then lit "info" else lit "warn"))
        (some (approval_entry approved r)) answered in
    if r.remaining == 0 && is_awaiting w.task.status
    then schedule_reply (or_threw logged (transition env running plain_options logged))
    else (schedule_persist logged, accepted)

unfoldable pub resolve_approval : Env → Text → Bool → World → World × Reply
unfolding resolved
resolve_approval env id approved w = resolved env approved w (resolve w.task.pending id approved)

abbrev pub some_or : Option Text → Text → Option Text
some_or none d = some d
some_or (some s) d = some s

unfoldable pub terminate : Env → World → World × Reply
unfolding or_threw abort_controller
terminate env w =
    if is_active w.task.status
    then elim (transition env terminated
        (record plain_options {
          finished_at = some (some_or w.task.finished_at env.now);
          schedule = true;
        })
        (abort_controller w)) [
          | none ↦ (abort_controller w, threw)
          | some x ↦
              (let rejected = reject_pending (
                  push env (some (lit "warn")) (some (string (lit "Task marked as terminated")))
                    x) in
                or_threw rejected (publish_terminal env none rejected))
        ]
    else (w, accepted)

-- The part of `delete` on the object itself.
unfoldable pub mark_deleted : World → World
mark_deleted w = record w { task = record w.task { deleted = true; timer = false } }

unfoldable pub delete_task : Env → World → World × Reply
unfolding abort_controller mark_deleted
delete_task env w =
    let marked = mark_deleted w in
    if is_active w.task.status
    then elim (transition env terminated (record plain_options { publish_status = false })
        (abort_controller marked)) [
          | none ↦ (abort_controller marked, threw)
          | some x ↦ (resolve_waiters (close_subscribers (reject_pending x)), accepted)
        ]
    else (marked, accepted)

-- What `waitForTask` answers at once, or that it waits. The time limit is `none` where the program
-- finds no finite number that is at least 0.
pub data Answer : Type 0 where
  ready timed_out waiting : Answer

unfoldable pub wait_for : ℕ → Option ℕ → World → World × Answer
wait_for caller limit w =
    let joined = record w { task = record w.task { waiters = w.task.waiters ++ caller ∷ [] } } in
    if is_terminal w.task.status then (w, ready) else elim limit [
      | some n ↦ elim n [ zero ↦ (w, timed_out) | suc m ↦ (joined, waiting) ]
      | none ↦ (joined, waiting)
    ]

-- The timer of a waiting caller fires.
unfoldable pub wait_expired : ℕ → World → World
wait_expired caller w = record w {
  task = record w.task { waiters = keep (λ c. not (c == caller)) w.task.waiters };
}

-- `shutdown` on one task.
unfoldable pub shut_down : World → World
unfolding abort_controller
shut_down w = persist (close_subscribers (reject_pending (abort_controller w)))

unfoldable pub log_frames : ℕ → List Log → List Out
log_frames s [] = []
log_frames s (l ∷ ls) = log_event l (s ∷ []) ∷ log_frames s ls

unfoldable pub approval_frames : ℕ → List Approval → List Out
approval_frames s [] = []
approval_frames s (a ∷ rest) = approval_event a (s ∷ []) ∷ approval_frames s rest

-- `sse`: the frames that a new stream gets, in order; at an ended task it is closed, else it joins.
unfoldable pub subscribe : ℕ → World → World × List Out
unfolding log_frames approval_frames
subscribe s w =
    let opening =
      (contract_event (s ∷ []) ∷ status_event w.task.status (s ∷ []) ∷ log_frames s w.task.logs)
      ++ approval_frames s (list w.task.pending) in
    if is_terminal w.task.status
    then (w, opening ++ complete_event w.task.status w.task.result (s ∷ []) ∷ ended (s ∷ []) ∷ [])
    else (record w { task = record w.task { subs = w.task.subs ++ s ∷ [] } }, opening)

-- The `cleanup` of a stream.
unfoldable pub unsubscribe : ℕ → World → World
unsubscribe s w = record w {
  task = record w.task { subs = keep (λ k. not (k == s)) w.task.subs };
  out = ended (s ∷ []) ∷ w.out;
}
