-- ===== src/Agent/Blind.antt =====
-- The stall detection of src/runtime/runAgentLoop.js does not see calls of unknown tools.
use mathlib.Core.Path.{subst}
use ender.Prelude.{
  ℕ, suc, ◌+◌, Bool, false, List, [], ◌∷◌, Option, none, some, Text, length, All, ◌≡◌, refl, arith,
}
use ender.Json.{Json}
use ender.Agent.{thinking, assistant, join, normalize_assistant_content, assistant_text}
use ender.Agent.Loop.{
  Request, Reply, throws, says, Turn, Transcript, log, add_message, CallEnd, goes_on, finishes,
  call_throws, CallsEnd, all_done, finished, calls_threw, State, Next, loops, returns, loop_throws,
  end_turn, after_call, after_calls, noted_progress, take_calls, calls_of, with_args, args_of,
  run_call, run_calls, replied, turn, continue, run,
}

abbrev IsSilent : CallEnd → Type 0
IsSilent (goes_on none t) = Unit
IsSilent _ = ⊥

abbrev AreSilent : CallsEnd → Type 0
AreSilent (all_done [] t) = Unit
AreSilent _ = ⊥

-- The loop goes on, at this step.
abbrev pub GoesOnAt : ℕ → Next → Type 0
GoesOnAt k (loops s) = s.step ≡ k
GoesOnAt k _ = ⊥

-- The model says something and calls tools, none of which is there.
abbrev pub CallsUnknown : (Text → Bool) → Reply → Type 0
CallsUnknown knows throws = ⊥
CallsUnknown knows (says content [] aborted) = ⊥
CallsUnknown knows (says content (r ∷ rs) aborted) =
    (aborted ≡ false)
    × All (λ (q : Request). (q.aborted ≡ false) × (knows q.call.name ≡ false)) (r ∷ rs)

abbrev pub IsLost : (Text → Bool) → Turn → Type 0
IsLost knows e = (e.aborted ≡ false) × CallsUnknown knows e.reply

module _ (stringify : Json → Text) (parse : Text → Option Json) (explain : Text → Text)
    (knows : Text → Bool) where
  with_args-IsSilent :
      (r : Request) (t : Transcript) (o : Option Json)
      → knows r.call.name ≡ false
      → IsSilent (with_args stringify parse explain knows r t o)
  with_args-IsSilent r t none h = tt
  with_args-IsSilent r t (some args) h = rw h tt

  after_call-AreSilent :
      (rest : List Text → Transcript → CallsEnd) (e : CallEnd)
      → ((t : Transcript) → AreSilent (rest [] t))
      → IsSilent e
      → AreSilent (after_call rest [] e)
  after_call-AreSilent rest (goes_on none t) ih h = ih t
  after_call-AreSilent rest (goes_on (some p) t) ih h = absurd h
  after_call-AreSilent rest (finishes s t) ih h = absurd h
  after_call-AreSilent rest (call_throws t) ih h = absurd h

  run_call-IsSilent :
      (r : Request) (t : Transcript)
      → r.aborted ≡ false
      → knows r.call.name ≡ false
      → IsSilent (run_call stringify parse explain knows r t)
  unfolding run_call
  run_call-IsSilent r t a h =
      rw a (with_args-IsSilent r t (args_of stringify parse explain knows r.call.args) h)

  run_calls-AreSilent :
      (rs : List Request) (t : Transcript)
      → All (λ (q : Request). (q.aborted ≡ false) × (knows q.call.name ≡ false)) rs
      → AreSilent (run_calls stringify parse explain knows rs [] t)
  unfolding run_calls
  run_calls-AreSilent [] t h = tt
  run_calls-AreSilent (r ∷ rs) t h =
      after_call-AreSilent (run_calls stringify parse explain knows rs)
        (run_call stringify parse explain knows r t) (λ u. run_calls-AreSilent rs u h.1)
        (run_call-IsSilent r t h.0.0 h.0.1)

  after_calls-goes_on :
      (stall step : ℕ) (s : State) (e : CallsEnd)
      → AreSilent e
      → GoesOnAt step (after_calls stall step s e)
  unfolding end_turn join
  after_calls-goes_on stall step s (all_done [] t) h = refl
  after_calls-goes_on stall step s (all_done (p ∷ parts) t) h = absurd h
  after_calls-goes_on stall step s (finished text t) h = absurd h
  after_calls-goes_on stall step s (calls_threw t) h = absurd h

  replied-goes_on :
      (stall step : ℕ) (s : State) (t : Transcript) (a : Reply)
      → CallsUnknown knows a
      → GoesOnAt step (replied stringify parse explain knows stall step s t a)
  unfolding take_calls
  replied-goes_on stall step s t throws h = absurd h
  replied-goes_on stall step s t (says content [] aborted) h = absurd h
  replied-goes_on stall step s t (says content (r ∷ rs) aborted) h =
      let said = normalize_assistant_content content in
      let noted =
        noted_progress step (assistant_text said)
          (add_message (assistant said (calls_of (r ∷ rs))) t) in
      rw h.0 (
        after_calls-goes_on stall step s (run_calls stringify parse explain knows (r ∷ rs) [] noted)
          (run_calls-AreSilent (r ∷ rs) noted h.1))

  continue-goes_on :
      (k : ℕ) (es : List Turn) (rest : State → Next) (x : Next)
      → ((s : State) → GoesOnAt (s.step + length es) (rest s))
      → GoesOnAt (k + 1) x
      → GoesOnAt (k + suc (length es)) (continue rest x)
  continue-goes_on k es rest (loops s) ih h = subst (λ n. GoesOnAt n (rest s)) (omega arith) (ih s)
  continue-goes_on k es rest (returns text n why t) ih h = absurd h
  continue-goes_on k es rest (loop_throws t) ih h = absurd h

  -- Without a step limit, a model that calls nothing but unknown tools is asked again and again: whatever
  -- the stall limit, after any number of such turns the loop has neither ended nor thrown.
  pub unknown_tools_never_stall :
      (stall : ℕ) (es : List Turn) (s : State)
      → All (IsLost knows) es
      → GoesOnAt (s.step + length es) (run stringify parse explain knows none stall es s)
  unfolding run turn
  unknown_tools_never_stall stall [] s h = omega arith
  unknown_tools_never_stall stall (e ∷ es) s h =
      continue-goes_on s.step es (run stringify parse explain knows none stall es)
        (turn stringify parse explain knows none stall e s)
        (λ s'. unknown_tools_never_stall stall es s' h.1)
        (rw h.0.0 (
          replied-goes_on stall (s.step + 1) s (log (thinking (s.step + 1)) s.transcript) e.reply
            h.0.1))
