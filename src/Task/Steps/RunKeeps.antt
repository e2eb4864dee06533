-- ===== src/Task/Steps/RunKeeps.antt =====
-- The events of a run keep the invariant.
use ender.Prelude.{
  ℕ, ◌<◌, Bool, true, false, List, [], ◌∷◌, Option, none, some, Text, length, insert, fresh_key,
  ◌≡◌, ◌⊎◌, inl, inr, refl, arith, if◌then◌else◌, Option-cases,
}
use ender.Json.{Json}
use ender.Approval.{Approval, Payload, Store, request}
use ender.Task.Status.{is_active, can_transition}
use ender.Task.Status.Graph.{of_outcome_terminal}
use ender.Task.Record.{World, Env, executing, saving_result, saving_error}
use ender.Task.Run.{
  run_thread, on_log, request_approval, workspace_prepared, returned, failed, save_ended,
}
use ender.Task.Publish.{
  publish_approval, push_and_send, publish_terminal, schedule_persist, persist, transition,
}
use ender.Task.Run.{is_current, ask, caught, release, result_saved, error_saved}
use ender.Task.Status.{allowed}
use ender.Approval.{Pending}
use ender.Task.Steps.Invariant.{is_saving, Inv}

pub on_log-Inv :
    (env : Env) (r : ℕ) (l : Option Text) (e : Option Json) (w : World)
    → Inv w
    → Inv (on_log env r l e w)
unfolding on_log push_and_send is_current
on_log-Inv env r l e w v = ground arith

pub workspace-Inv : (r : ℕ) (p : Text) (w : World) → Inv w → Inv (workspace_prepared r p w)
unfolding workspace_prepared schedule_persist is_current
workspace-Inv r p w v = ground arith

length-insert : (k : Text) (p : Pending) (s : Store) → 0 < length (insert k p s)
unfolding insert
length-insert k p [] = omega arith
length-insert k p ((j, q) ∷ s) = ground arith

request-length :
    (ids : List Text) (now : Text) (s : Store) (p : Payload) (t : Store) (a : Approval)
    → request ids now s p ≡ some (t, a)
    → 0 < length t
unfolding request
request-length ids now s p t a h = elim (Option-cases (fresh_key ids s)) [
  | inl e ↦
      let bad : ◌≡◌ {A = Option (Store × Approval)} none (some (t, a)) = rw (e, request) at h in cc
  | inr (c, e) ↦ ground (arith, e, length-insert c (record { approval = a; live = true }) s)
]

ask_with-Inv :
    (env : Env) (t : Store) (a : Approval) (w : World)
    → 0 < length t
    → Inv w
    → Inv (ask env (some (t, a)) w).0
unfolding ask transition can_transition allowed publish_approval
ask_with-Inv env t a w n v = ground arith

ask_result-Inv :
    (env : Env) (ids : List Text) (p : Payload) (w : World) (o : Option (Store × Approval))
    → request ids env.now w.task.pending p ≡ o
    → Inv w
    → Inv (ask env o w).0
unfolding ask
ask_result-Inv env ids p w none e v = v
ask_result-Inv env ids p w (some (t, a)) e v =
    ask_with-Inv env t a w (request-length ids env.now w.task.pending p t a e) v

if_asked-Inv :
    (b : Bool) (p : World × Bool) (w : World)
    → Inv p.0
    → Inv w
    → Inv (if b then p else (w, false)).0
if_asked-Inv true p w h k = h
if_asked-Inv false p w h k = k

pub ask-Inv :
    (env : Env) (ids : List Text) (r : ℕ) (p : Payload) (w : World)
    → Inv w
    → Inv (request_approval env ids r p w).0
unfolding request_approval
ask-Inv env ids r p w v =
    if_asked-Inv (is_current r w.task) (ask env (request ids env.now w.task.pending p) w) w
      (ask_result-Inv env ids p w (request ids env.now w.task.pending p) refl v) v

pub run_thread-Inv :
    (env : Env) (w : World) {x : World}
    → Inv w
    → w.task.deleted ≡ false
    → run_thread env w ≡ some x
    → Inv x
unfolding run_thread transition can_transition allowed
run_thread-Inv env w v d h = ground arith

caught-Inv :
    (env : Env) (r : ℕ) (ab : Bool) (m : Text) (w : World)
    → Inv w
    → (ab ≡ true → is_active w.task.status ≡ false)
    → (w.phase r ≡ executing) ⊎ ((is_active w.task.status ≡ true) × (is_saving (w.phase r) ≡ true))
    → Inv (caught env r ab m w)
unfolding caught push_and_send persist transition can_transition allowed
caught-Inv env r ab m w v a h = ground arith

result_saved-Inv :
    (env : Env) (r : ℕ) (w : World) → Inv w → w.phase r ≡ saving_result → Inv (result_saved env r w)
unfolding result_saved publish_terminal
result_saved-Inv env r w v a = ground (arith, caught-Inv env r false env.stack w)

error_saved-Inv :
    (env : Env) (r : ℕ) (w : World) → Inv w → w.phase r ≡ saving_error → Inv (error_saved env r w)
unfolding error_saved publish_terminal release
error_saved-Inv env r w v a = ground (arith)

pub save_ended-Inv : (env : Env) (r : ℕ) (w : World) → Inv w → Inv (save_ended env r true w)
unfolding save_ended
save_ended-Inv env r w v = ground (arith, result_saved-Inv env r w, error_saved-Inv env r w)

pub returned-Inv :
    (env : Env) (r : ℕ) (text : Text) (o : Option Text) (w : World)
    → Inv w
    → w.phase r ≡ executing
    → Inv (returned env r text o w)
unfolding returned push_and_send persist transition can_transition allowed is_current
returned-Inv env r text o w v h = ground (arith, of_outcome_terminal o)

pub failed-Inv :
    (env : Env) (r : ℕ) (ab : Bool) (m : Text) (w : World)
    → Inv w
    → (ab ≡ true → is_active w.task.status ≡ false)
    → w.phase r ≡ executing
    → Inv (failed env r ab m w)
unfolding failed
failed-Inv env r ab m w v a h = caught-Inv env r ab m w v a (inl h)
