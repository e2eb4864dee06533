-- ===== src/Task/Steps/Traces.antt =====
-- What holds after any sequence of steps.
use ender.Prelude.{
  ℕ, ◌<◌, List, [], ◌∷◌, none, some, Text, length, AreDistinct, Bool-cases, inl, inr, Bool, true,
  false, ◌≡◌, refl, arith, if◌then◌else◌,
}
use ender.Task.Status.{Status, awaiting_approval, can_transition, is_active, is_terminal}
use ender.Approval.{Approval, Store, Payload}
use ender.Approval.Laws.{request_total}
use ender.Task.Record.{World, Env, Phase, executing}
use ender.Task.Run.{is_current, ask, on_log, request_approval, workspace_prepared, returned, failed}
use ender.Task.Calls.{continue_task, resolve_approval, terminate, delete_task, wait_for, subscribe}
use ender.Task.Steps.{
  Act, continues, resolves, terminates, deletes, waits, gives_up, joins, leaves, logs, asks,
  prepares, returns, fails, saves, is_executing, step, run_acts,
}
use ender.Task.Publish.{transition}
use ender.Task.Steps.Invariant.{Inv}
use ender.Task.Steps.RunKeeps.{
  on_log-Inv, workspace-Inv, ask-Inv, save_ended-Inv, returned-Inv, failed-Inv,
}
use ender.Task.Steps.CallKeeps.{
  resolve-Inv, continue-Inv, terminate-Inv, delete-Inv, wait_for-Inv, wait_expired-Inv,
  subscribe-Inv, unsubscribe-Inv,
}

abbrev pub IsOrderly : World → Act → Type 0
IsOrderly w (fails r true message) = is_active w.task.status ≡ false
IsOrderly w (saves r ok) = ok ≡ true
IsOrderly w _ = Unit

unless-Inv : (b : Bool) (w x : World) → Inv w → (b ≡ false → Inv x) → Inv (if b then w else x)
unless-Inv true w x v k = v
unless-Inv false w x v k = k refl

is_executing→eq : (p : Phase) → is_executing p ≡ true → p ≡ executing
is_executing→eq p h = ground arith

when-Inv : (b : Bool) (w x : World) → Inv w → (b ≡ true → Inv x) → Inv (if b then x else w)
when-Inv true w x v k = k refl
when-Inv false w x v k = v

pub step-Inv : (env : Env) (a : Act) (w : World) → IsOrderly w a → Inv w → Inv (step env a w)
unfolding step
step-Inv env (continues j) w o v =
    unless-Inv w.task.deleted w (continue_task env j w).0 v (continue-Inv env j w v)
step-Inv env (resolves id b) w o v =
    unless-Inv w.task.deleted w (resolve_approval env id b w).0 v (λ _. resolve-Inv env id b w v)
step-Inv env terminates w o v =
    unless-Inv w.task.deleted w (terminate env w).0 v (λ _. terminate-Inv env w v)
step-Inv env deletes w o v =
    unless-Inv w.task.deleted w (delete_task env w).0 v (λ _. delete-Inv env w v)
step-Inv env (waits c l) w o v =
    unless-Inv w.task.deleted w (wait_for c l w).0 v (λ _. wait_for-Inv c l w v)
step-Inv env (gives_up c) w o v = wait_expired-Inv c w v
step-Inv env (joins s) w o v =
    unless-Inv w.task.deleted w (subscribe s w).0 v (λ _. subscribe-Inv s w v)
step-Inv env (leaves s) w o v = unsubscribe-Inv s w v
step-Inv env (logs r l e) w o v =
    when-Inv (is_executing (w.phase r)) w (on_log env r l e w) v (λ _. on_log-Inv env r l e w v)
step-Inv env (asks ids r p) w o v =
    when-Inv (is_executing (w.phase r)) w (request_approval env ids r p w).0 v
      (λ _. ask-Inv env ids r p w v)
step-Inv env (prepares r p) w o v =
    when-Inv (is_executing (w.phase r)) w (workspace_prepared r p w) v (λ _. workspace-Inv r p w v)
step-Inv env (returns r t u) w o v =
    when-Inv (is_executing (w.phase r)) w (returned env r t u w) v
      (λ h. returned-Inv env r t u w v (is_executing→eq (w.phase r) h))
step-Inv env (fails r true m) w o v =
    when-Inv (is_executing (w.phase r)) w (failed env r true m w) v
      (λ h. failed-Inv env r true m w v (λ _. o) (is_executing→eq (w.phase r) h))
step-Inv env (fails r false m) w o v =
    when-Inv (is_executing (w.phase r)) w (failed env r false m w) v
      (λ h. failed-Inv env r false m w v (λ e. cc) (is_executing→eq (w.phase r) h))
step-Inv env (saves r true) w o v = save_ended-Inv env r w v
step-Inv env (saves r false) w o v = cc

at_rest :
    (w : World)
    → Inv w
    → w.task.controller ≡ none
    → (is_terminal w.task.status ≡ true) × (w.task.waiters ≡ [])
at_rest w v c = ground (arith, v.served, v.owned)

current-active :
    (r : ℕ) (w : World)
    → Inv w
    → w.phase r ≡ executing
    → is_current r w.task ≡ true
    → is_active w.task.status ≡ true
unfolding is_current
current-active r w v e c = ground arith

active_can_wait : (s : Status) → is_active s ≡ true → can_transition s awaiting_approval ≡ true
unfolding can_transition
active_can_wait s h = ground arith

asked_safely :
    (env : Env) (t : Store) (a : Approval) (w : World)
    → is_active w.task.status ≡ true
    → (ask env (some (t, a)) w).1 ≡ false
unfolding ask transition
asked_safely env t a w h = rw (active_can_wait w.task.status h)

asks_safely :
    (env : Env) (ids : List Text) (r : ℕ) (p : Payload) (w : World)
    → Inv w
    → w.phase r ≡ executing
    → AreDistinct ids
    → length w.task.pending < length ids
    → (request_approval env ids r p w).1 ≡ false
unfolding request_approval
asks_safely env ids r p w v e d n =
    let (t, a, q, m) = request_total ids env.now w.task.pending p d n in
    elim (Bool-cases (is_current r w.task)) [
      | inl c ↦ rw (c, q) (asked_safely env t a w (current-active r w v e c))
      | inr c ↦ rw c
    ]

abbrev pub AreOrderly : World → List (Env × Act) → Type 0
AreOrderly w [] = Unit
AreOrderly w ((env, a) ∷ rest) = IsOrderly w a × AreOrderly (step env a w) rest

pub run_acts-Inv :
    (acts : List (Env × Act)) (w : World) → AreOrderly w acts → Inv w → Inv (run_acts acts w)
unfolding run_acts
run_acts-Inv [] w o v = v
run_acts-Inv ((env, a) ∷ rest) w o v = run_acts-Inv rest (step env a w) o.1 (step-Inv env a w o.0 v)

-- After any orderly sequence of steps, a task that no run controls is at rest: its status is
-- terminal, and no caller of `waitForTask` is left waiting for it.
pub quiet_is_over :
    (acts : List (Env × Act)) (w : World)
    → Inv w
    → AreOrderly w acts
    → (run_acts acts w).task.controller ≡ none
    → (is_terminal (run_acts acts w).task.status ≡ true) × ((run_acts acts w).task.waiters ≡ [])
quiet_is_over acts w v o c = at_rest (run_acts acts w) (run_acts-Inv acts w o v) c

-- After any orderly sequence of steps, a request for approval by the run that controls the task
-- never throws: the status can always change to `awaiting_approval`.
pub current_asks_safely :
    (acts : List (Env × Act)) (w : World) (env : Env) (ids : List Text) (r : ℕ) (p : Payload)
    → Inv w
    → AreOrderly w acts
    → (run_acts acts w).phase r ≡ executing
    → AreDistinct ids
    → length (run_acts acts w).task.pending < length ids
    → (request_approval env ids r p (run_acts acts w)).1 ≡ false
current_asks_safely acts w env ids r p v o e d n =
    asks_safely env ids r p (run_acts acts w) (run_acts-Inv acts w o v) e d n
