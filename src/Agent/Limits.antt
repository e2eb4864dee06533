-- ===== src/Agent/Limits.antt =====
-- The step limit of the loop in src/runtime/runAgentLoop.js.
use ender.Prelude.{
  ℕ, suc, ◌+◌, ◌≤◌, ◌<◌, Bool, true, false, not, ◌&&◌, List, [], ◌∷◌, Option, some, Text, lit,
  is_empty, length, leb, ltb, if◌then◌else◌, ◌≡◌, refl, arith,
}
use ender.Json.{Json}
use ender.Agent.{thinking, assistant, repeated, join, normalize_assistant_content, assistant_text}
use ender.Agent.Loop.{
  Request, Reply, throws, says, Turn, Transcript, log, add_message, CallsEnd, all_done, finished,
  calls_threw, State, Next, loops, returns, loop_throws, stall_detected, max_steps, end_turn,
  after_calls, noted_progress, take_calls, calls_of, run_calls, replied, turn, is_over, continue,
  run, same_text,
}

-- The turn ends at this step, or the loop goes on from it.
abbrev IsAt : ℕ → Next → Type 0
IsAt k (loops s) = s.step ≡ k
IsAt k (returns text n why t) = n ≡ k
IsAt k (loop_throws t) = Unit

-- A turn from below the limit stays within it.
abbrev IsWithin : ℕ → ℕ → Next → Type 0
IsWithin n step (loops s) = (s.step ≡ step + 1) × (step + 1 ≤ n)
IsWithin n step (returns text k why t) = k ≤ n
IsWithin n step (loop_throws t) = Unit

-- The loop is over, after at most so many steps.
abbrev pub IsOver : ℕ → Next → Type 0
IsOver n (loops s) = ⊥
IsOver n (returns text k why t) = k ≤ n
IsOver n (loop_throws t) = Unit

if-IsAt : (k : ℕ) (b : Bool) (x y : Next) → IsAt k x → IsAt k y → IsAt k (if b then x else y)
if-IsAt k true x y p q = p
if-IsAt k false x y p q = q

if-IsWithin :
    (n step : ℕ) (b : Bool) (x y : Next)
    → IsWithin n step x
    → (b ≡ false → IsWithin n step y)
    → IsWithin n step (if b then x else y)
if-IsWithin n step true x y p q = p
if-IsWithin n step false x y p q = q refl

end_turn-IsAt :
    (stall step : ℕ) (s : State) (parts : List Text) (t : Transcript)
    → IsAt step (end_turn stall step s parts t)
unfolding end_turn
end_turn-IsAt stall step s parts t =
    let print = join (lit "||") parts in
    let n = s.repeats + 1 in
    let warned = log (repeated (n + 1)) t in
    let stalled =
      returns (lit "Stall detected from repeated tool-call cycles") step stall_detected warned in
    let again =
      loops (record { step = step; last = some print; repeats = n; transcript = warned }) in
    if-IsAt step (not (is_empty print) && same_text s.last print)
      (if ltb 0 stall && leb stall n then stalled else again)
      (loops (record { step = step; last = some print; repeats = 0; transcript = t }))
      (if-IsAt step (ltb 0 stall && leb stall n) stalled again refl refl) refl

after_calls-IsAt :
    (stall step : ℕ) (s : State) (e : CallsEnd) → IsAt step (after_calls stall step s e)
after_calls-IsAt stall step s (all_done parts t) = end_turn-IsAt stall step s parts t
after_calls-IsAt stall step s (finished text t) = refl
after_calls-IsAt stall step s (calls_threw t) = tt

IsAt-IsWithin : (n step : ℕ) (x : Next) → step + 1 ≤ n → IsAt (step + 1) x → IsWithin n step x
IsAt-IsWithin n step (loops s) h p = (p, h)
IsAt-IsWithin n step (returns text k why t) h p = omega arith
IsAt-IsWithin n step (loop_throws t) h p = tt

module _ (stringify : Json → Text) (parse : Text → Option Json) (explain : Text → Text)
    (knows : Text → Bool) where
  take_calls-IsAt :
      (stall step : ℕ) (s : State) (content : Json) (rs : List Request) (t : Transcript)
      → IsAt step (take_calls stringify parse explain knows stall step s content rs t)
  unfolding take_calls
  take_calls-IsAt stall step s content [] t = refl
  take_calls-IsAt stall step s content (r ∷ rs) t = after_calls-IsAt stall step s (
      run_calls stringify parse explain knows (r ∷ rs) [] (
        noted_progress step (assistant_text content)
          (add_message (assistant content (calls_of (r ∷ rs))) t)))

  replied-IsAt :
      (stall step : ℕ) (s : State) (t : Transcript) (a : Reply)
      → IsAt step (replied stringify parse explain knows stall step s t a)
  replied-IsAt stall step s t throws = tt
  replied-IsAt stall step s t (says content rs aborted) =
      if-IsAt step aborted (loop_throws t)
        (take_calls stringify parse explain knows stall step s (normalize_assistant_content content)
          rs t)
        tt (take_calls-IsAt stall step s (normalize_assistant_content content) rs t)

  turn-IsWithin :
      (n stall : ℕ) (e : Turn) (s : State)
      → s.step ≤ n
      → IsWithin n s.step (turn stringify parse explain knows (some n) stall e s)
  unfolding turn
  turn-IsWithin n stall e s h =
      let t = log (thinking (s.step + 1)) s.transcript in
      let next = replied stringify parse explain knows stall (s.step + 1) s t e.reply in
      let over =
        returns (lit "Loop limit reached without completion") s.step max_steps s.transcript in
      if-IsWithin n s.step e.aborted (loop_throws s.transcript)
        (if is_over (some n) s.step then over else next) tt
        (λ _. if-IsWithin n s.step (is_over (some n) s.step) over next h (λ room.
          IsAt-IsWithin n s.step next (below n s.step room)
            (replied-IsAt stall (s.step + 1) s t e.reply)))
    where
      below : (n k : ℕ) → leb n k ≡ false → k + 1 ≤ n
      below n k p = ground arith

  continue-IsOver :
      (n step more : ℕ) (rest : State → Next) (x : Next)
      → ((s : State) → s.step ≤ n → n < s.step + more → IsOver n (rest s))
      → n < step + suc more
      → IsWithin n step x
      → IsOver n (continue rest x)
  continue-IsOver n step more rest (loops s) ih h p = ih s (omega arith) (omega arith)
  continue-IsOver n step more rest (returns text k why t) ih h p = p
  continue-IsOver n step more rest (loop_throws t) ih h p = tt

  -- With a limit of n steps the loop ends before the model is asked more than n times, however the model
  -- and the tools answer: it returns a result after at most n steps, or throws.
  pub run_ends :
      (n stall : ℕ) (es : List Turn) (s : State)
      → s.step ≤ n
      → n < s.step + length es
      → IsOver n (run stringify parse explain knows (some n) stall es s)
  unfolding run
  run_ends n stall [] s h m = absurd (omega arith)
  run_ends n stall (e ∷ es) s h m =
      continue-IsOver n s.step (length es) (run stringify parse explain knows (some n) stall es)
        (turn stringify parse explain knows (some n) stall e s) (run_ends n stall es) m
        (turn-IsWithin n stall e s h)
