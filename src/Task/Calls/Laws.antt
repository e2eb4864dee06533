-- ===== src/Task/Calls/Laws.antt =====
-- What the public calls of src/runtime/taskManager.js do to a task.
use ender.Prelude.{
  length, lookup, remove, lookup-remove, text_eq, sym, ap, ◌∙◌, suc, Bool, true, false, [], ◌∷◌,
  ◌++◌, none, some, Text, lit, ◌≡◌, ◌≢◌, ◌⊎◌, inl, inr, refl, arith, Bool-cases, Option-cases, ◌==◌,
  if◌then◌else◌,
}
use ender.Json.{Json}
use ender.Approval.{Resolution, Store, Pending, resolve, take_pending, settle}
use ender.Task.Status.{
  Status, running, awaiting_approval, terminated, is_active, allowed, can_transition,
}
use ender.Task.Record.{World, Env, executing}
use ender.Task.Publish.{
  transition, push, push_and_send, schedule_persist, publish_terminal, reject_pending, abort_run,
}
use ender.Task.Content.{normalize_input, message_of, has_thread_content}
use ender.Task.Run.{run_thread}
use ender.Task.Calls.{
  accepted, continue_task, take_message, resolve_approval, terminate, some_or, or_threw,
}

-- Terminating an active task always succeeds: its status is `terminated`, the time of its end is set,
-- its run is aborted, its approvals, streams and waiting callers are all gone.
pub terminate_active :
    (env : Env) (w : World)
    → is_active w.task.status ≡ true
    → let x = (terminate env w).0 in
      ((terminate env w).1 ≡ accepted)
      × (x.task.status ≡ terminated)
      × (x.task.finished_at ≡ some_or w.task.finished_at env.now)
      × (x.task.controller ≡ abort_run w.task.controller)
      × (x.task.pending ≡ [])
      × (x.task.waiters ≡ [])
      × (x.task.subs ≡ [])
unfolding terminate push transition can_transition allowed publish_terminal reject_pending
terminate_active env w h = ground arith

-- Terminating a task that is not active changes nothing and is no error.
pub terminate_ended :
    (env : Env) (w : World) → is_active w.task.status ≡ false → terminate env w ≡ (w, accepted)
unfolding terminate
terminate_ended env w h = rw h

can_restart : (s : Status) → can_transition s running ≡ true
unfolding can_transition allowed
can_restart s = ground arith

run_thread-ne-none : (env : Env) (w : World) → run_thread env w ≢ none
unfolding run_thread transition
run_thread-ne-none env w e = ground (arith, can_restart w.task.status)

pub run_thread_total : (env : Env) (w : World) → (x : World) × (run_thread env w ≡ some x)
run_thread_total env w = elim (Option-cases (run_thread env w)) [
  | inl e ↦ absurd (run_thread-ne-none env w e)
  | inr p ↦ p
]

-- What `_runThread` leaves.
pub run_thread_effect :
    (env : Env) (w : World) (x : World)
    → run_thread env w ≡ some x
    → (x.task.status ≡ running)
      × (x.task.run_count ≡ suc w.task.run_count)
      × (x.task.finished_at ≡ none)
      × (x.task.pending ≡ [])
      × (x.task.thread ≡ w.task.thread)
      × (x.phase x.task.run_count ≡ executing)
      × (x.task.controller ≡ some (record { number = suc w.task.run_count; aborted = false }))
unfolding run_thread transition
run_thread_effect env w x h = ground arith

-- A message to an ended task that has content is always taken: exactly that message is added to the
-- thread, the task is running, and a new run, numbered one higher, executes and is the one that controls
-- the task, not aborted; no approval is pending and no time of an end is set.
pub continue_accepted :
    (env : Env) (raw : Json) (w : World)
    → is_active w.task.status ≡ false
    → has_thread_content (some (message_of raw)) ≡ true
    → let x = (continue_task env raw w).0 in
      ((continue_task env raw w).1 ≡ accepted)
      × (x.task.status ≡ running)
      × (x.task.thread
          ≡ w.task.thread ++ record { role = lit "user"; content = message_of raw } ∷ [])
      × (x.task.run_count ≡ suc w.task.run_count)
      × (x.phase x.task.run_count ≡ executing)
      × (x.task.controller ≡ some (record { number = suc w.task.run_count; aborted = false }))
      × (x.task.pending ≡ [])
      × (x.task.finished_at ≡ none)
unfolding continue_task take_message or_threw
continue_accepted env raw w a h =
    let taken = take_message env (normalize_input raw) (message_of raw) w in
    let (x, e) = run_thread_total env taken in
    let (s, n, f, p, t, q, c) = run_thread_effect env taken x e in
    rw (a, h, e) (refl, s, t, n, q, c, p, f)

-- A message is refused, and nothing changes, if the task is active or the message has no content
-- once it is cleaned.
pub continue_refused :
    (env : Env) (raw : Json) (w : World)
    → (is_active w.task.status ≡ true) ⊎ (has_thread_content (some (message_of raw)) ≡ false)
    → ((continue_task env raw w).0 ≡ w) × ((continue_task env raw w).1 ≢ accepted)
unfolding continue_task
continue_refused env raw w (inl a) = rw a (refl, λ e. cc)
continue_refused env raw w (inr h) = elim (Bool-cases (is_active w.task.status)) [
  | inl a ↦ rw a (refl, λ e. cc)
  | inr a ↦ rw (a, h) (refl, λ e. cc)
]

-- Whether the last approval is answered, seen from what is left of the store.
abbrev pub is_last : Store → Bool
is_last [] = true
is_last (p ∷ s) = false

length-zero : (s : Store) → (length s == 0) ≡ is_last s
length-zero [] = refl
length-zero (p ∷ s) = ground arith

-- What `resolve` gives for an approval that is pending.
resolve-found :
    (s : Store) (id : Text) (approved : Bool) (p : Pending)
    → lookup id s ≡ some p
    → resolve s id approved
      ≡ some (record {
        approval = p.approval;
        remaining = length (remove id s);
        store = remove id s;
        decisions = settle p approved;
      })
unfolding resolve take_pending
resolve-found s id approved p h = rw h refl

resolved_with :
    (env : Env) (id : Text) (approved : Bool) (w : World) {r : Resolution}
    → resolve w.task.pending id approved ≡ some r
    → let x = (resolve_approval env id approved w).0 in
      ((resolve_approval env id approved w).1 ≡ accepted)
      × (x.task.pending ≡ r.store)
      × (x.task.status ≡ (
          if r.remaining == 0
          then elim w.task.status [ awaiting_approval ↦ running | _ ↦ w.task.status ]
          else w.task.status))
unfolding resolve_approval push_and_send transition can_transition allowed or_threw schedule_persist
resolved_with env id approved w {r} e = rw (e, resolve_approval) (ground arith)

-- Answering a pending approval is accepted and takes just that approval from the store: under its id
-- nothing is found any more, under each other id what was found before. A waiting task whose last
-- approval this was runs again; with more to come, or in another status, the status stays.
pub resolve_approval_effect :
    (env : Env) (id : Text) (approved : Bool) (w : World) (p : Pending)
    → lookup id w.task.pending ≡ some p
    → let x = (resolve_approval env id approved w).0 in
      ((resolve_approval env id approved w).1 ≡ accepted)
      × ((k : Text)
          → lookup k x.task.pending ≡ (if text_eq id k then none else lookup k w.task.pending))
      × (x.task.status ≡ (
          if is_last x.task.pending
          then elim w.task.status [ awaiting_approval ↦ running | _ ↦ w.task.status ]
          else w.task.status))
resolve_approval_effect env id approved w p h =
    let left = remove id w.task.pending in
    let (a, b, c) =
      resolved_with env id approved w (resolve-found w.task.pending id approved p h) in
    let next : Status = elim w.task.status [ awaiting_approval ↦ running | _ ↦ w.task.status ] in
    (
      a,
      λ k. ap (lookup k) b ∙ lookup-remove id k w.task.pending,
      c
          ∙ (ap (λ t. if t then next else w.task.status) (length-zero left)
              ∙ ap (λ s. if is_last s then next else w.task.status) (sym b)),
    )
