-- ===== src/Task/Steps/CallKeeps.antt =====
-- The public calls keep the invariant.
use ender.Prelude.{
  lit, ℕ, Bool, true, false, not, Option, none, some, Text, length-keep-le, ◌≡◌, refl, arith,
  if◌then◌else◌, ◌==◌,
}
use ender.Json.{Json}
use ender.Approval.{resolve}
use ender.Task.Status.{is_active, can_transition}
use ender.Task.Record.{World, Env}
use ender.Task.Run.{run_thread}
use ender.Task.Calls.{
  continue_task, take_message, resolve_approval, terminate, delete_task, wait_for, wait_expired,
  subscribe, unsubscribe, Reply, or_threw, refused,
}
use ender.Task.Publish.{
  close_subscribers, resolve_waiters, push, push_and_send, publish_terminal, reject_pending,
  persist, transition,
}
use ender.Task.Status.{allowed}
use ender.Task.Content.{ContinueInput, normalize_input, message_of, has_thread_content}
use ender.Task.Steps.Invariant.{Inv}
use ender.Task.Steps.RunKeeps.{run_thread-Inv}

take_message-Inv :
    (env : Env) (input : ContinueInput) (c : Json) (w : World)
    → Inv w
    → Inv (take_message env input c w)
unfolding take_message
take_message-Inv env input c w v = record {
  known = v.known;
  numbered = v.numbered;
  owned = v.owned;
  busy = v.busy;
  asked = v.asked;
  served = v.served;
}

pub resolve-Inv :
    (env : Env) (id : Text) (b : Bool) (w : World) → Inv w → Inv (resolve_approval env id b w).0
unfolding resolve_approval resolve push_and_send transition can_transition allowed
resolve-Inv env id b w v = ground arith

if-Inv : (b : Bool) (p q : World × Reply) → Inv p.0 → Inv q.0 → Inv (if b then p else q).0
if-Inv true p q hp hq = hp
if-Inv false p q hp hq = hq

or_threw-Inv :
    (w : World) (o : Option World)
    → Inv w
    → ((x : World) → o ≡ some x → Inv x)
    → Inv (or_threw w o).0
unfolding or_threw
or_threw-Inv w none h k = h
or_threw-Inv w (some x) h k = k x refl

pub continue-Inv :
    (env : Env) (j : Json) (w : World)
    → Inv w
    → w.task.deleted ≡ false
    → Inv (continue_task env j w).0
unfolding continue_task take_message
continue-Inv env j w v d =
    let input = normalize_input j in
    let content = message_of j in
    let taken = take_message env input content w in
    let k = take_message-Inv env input content w v in
    let started = or_threw taken (run_thread env taken) in
    let busy : World × Reply = (w, refused (lit "task_busy")) in
    let empty : World × Reply = (w, refused (lit "prompt_required")) in
    let silent = not (has_thread_content (some content)) in
    if-Inv (is_active w.task.status) busy (if silent then empty else started) v (
      if-Inv silent empty started v
        (or_threw-Inv taken (run_thread env taken) k (λ x e. run_thread-Inv env taken k d e)))

pub terminate-Inv : (env : Env) (w : World) → Inv w → Inv (terminate env w).0
unfolding terminate push persist transition can_transition allowed publish_terminal reject_pending
terminate-Inv env w v = ground arith

pub delete-Inv : (env : Env) (w : World) → Inv w → Inv (delete_task env w).0
unfolding delete_task transition can_transition allowed reject_pending close_subscribers
    resolve_waiters
delete-Inv env w v = ground arith

pub wait_for-Inv : (c : ℕ) (l : Option ℕ) (w : World) → Inv w → Inv (wait_for c l w).0
unfolding wait_for
wait_for-Inv c l w v = ground arith

pub wait_expired-Inv : (c : ℕ) (w : World) → Inv w → Inv (wait_expired c w)
unfolding wait_expired
wait_expired-Inv c w v = ground (arith, length-keep-le (λ k. not (k == c)) w.task.waiters)

pub subscribe-Inv : (s : ℕ) (w : World) → Inv w → Inv (subscribe s w).0
unfolding subscribe
subscribe-Inv s w v = ground arith

pub unsubscribe-Inv : (s : ℕ) (w : World) → Inv w → Inv (unsubscribe s w)
unfolding unsubscribe
unsubscribe-Inv s w v = ground arith
