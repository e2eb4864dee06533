-- ===== src/Agent/Answers.antt =====
-- The messages that the loop of src/runtime/runAgentLoop.js gives to the model: every tool call is
-- answered, once and in its order.
use mathlib.Core.Path.{subst}
use ender.Prelude.{
  ℕ, ◌+◌, Bool, true, false, not, ◌&&◌, List, [], ◌∷◌, ◌++◌, Option, none, some, Text, lit,
  text_eq_refl, text_or, or_else, is_empty, text_eq, ltb, leb, if◌then◌else◌, ◌≡◌, refl,
}
use ender.Json.{Json}
use ender.Agent.{
  ToolCall, Message, system, human, assistant, tool, thinking, called, repeated, Normalized,
  normalize_result, normalize_assistant_content, assistant_text, join,
}
use ender.Agent.Loop.{
  Answer, gives, fails, aborts, Request, Reply, throws, says, Turn, Transcript, add_message, log,
  CallEnd, goes_on, finishes, call_throws, follow, completed, answered, unfit, with_args, args_of,
  run_call, call_id, CallsEnd, all_done, finished, calls_threw, after_call, run_calls, part_list,
  State, Next, loops, returns, max_steps, fingerprint_part, error_text, bad_args, stall_detected,
  loop_throws, end_turn, after_calls, noted_progress, take_calls, calls_of, replied, turn, is_over,
  continue, run, same_text,
}

-- Does a tool message answer this call: under its name, and under its id if it has one.
abbrev pub is_answer : ToolCall → Text → Text → Bool
is_answer c id name = text_eq c.name name && text_eq (text_or (or_else c.id []) id) id

-- The calls that are open after a message; `none` where a message comes out of turn.
abbrev pub expect : List ToolCall → Message → Option (List ToolCall)
expect [] (assistant content cs) = some cs
expect (c ∷ cs) (assistant content ds) = none
expect [] (tool content id name) = none
expect (c ∷ cs) (tool content id name) = if is_answer c id name then some cs else none
expect cs (system s) = some cs
expect cs (human content) = some cs

abbrev pub then_open :
    (List ToolCall → Option (List ToolCall)) → Option (List ToolCall) → Option (List ToolCall)
then_open f none = none
then_open f (some cs) = f cs

-- The calls that are open after many messages.
abbrev pub open_after : List Message → List ToolCall → Option (List ToolCall)
open_after [] cs = some cs
open_after (m ∷ ms) cs = then_open (open_after ms) (expect cs m)

then_open-append :
    (f g k : List ToolCall → Option (List ToolCall))
    → ((cs : List ToolCall) → g cs ≡ then_open k (f cs))
    → (o : Option (List ToolCall)) → then_open g o ≡ then_open k (then_open f o)
then_open-append f g k h none = refl
then_open-append f g k h (some cs) = h cs

open_after-append :
    (ms ns : List Message) (cs : List ToolCall)
    → open_after (ms ++ ns) cs ≡ then_open (open_after ns) (open_after ms cs)
open_after-append [] ns cs = refl
open_after-append (m ∷ ms) ns cs =
    then_open-append (open_after ms) (open_after (ms ++ ns)) (open_after ns)
      (open_after-append ms ns) (expect cs m)

-- The calls that are open in a transcript.
abbrev pub IsOpen : List ToolCall → Transcript → Type 0
IsOpen cs t = open_after t.messages [] ≡ some cs

add-IsOpen :
    (cs ds : List ToolCall) (m : Message) (t : Transcript)
    → IsOpen cs t
    → expect cs m ≡ some ds
    → IsOpen ds (add_message m t)
add-IsOpen cs ds m t h e = rw (open_after-append t.messages (m ∷ []) [], h, e)

expect_human : (cs : List ToolCall) (j : Json) → expect cs (human j) ≡ some cs
expect_human [] j = refl
expect_human (c ∷ cs) j = refl

follow-IsOpen :
    (cs : List ToolCall) (o : Option Json) (t : Transcript) → IsOpen cs t → IsOpen cs (follow o t)
follow-IsOpen cs none t h = h
follow-IsOpen cs (some j) t h = add-IsOpen cs cs (human j) t h (expect_human cs j)

text_or_twice : (a b : Text) → text_eq (text_or a (text_or a b)) (text_or a b) ≡ true
text_or_twice [] b = text_eq_refl b
text_or_twice (c ∷ a) b = text_eq_refl (c ∷ a)

is_answer_own : (r : Request) → is_answer r.call (call_id r) r.call.name ≡ true
is_answer_own r = rw (text_eq_refl r.call.name, text_or_twice (or_else r.call.id []) r.fresh_id)

answer-IsOpen :
    (r : Request) (cs : List ToolCall) (content : Text) (t : Transcript)
    → IsOpen (r.call ∷ cs) t
    → IsOpen cs (add_message (tool content (call_id r) r.call.name) t)
answer-IsOpen r cs content t h =
    add-IsOpen (r.call ∷ cs) cs (tool content (call_id r) r.call.name) t h (rw (is_answer_own r))

-- A call leaves the calls after it open, if the loop goes on.
abbrev CallLeaves : List ToolCall → CallEnd → Type 0
CallLeaves cs (goes_on part t) = IsOpen cs t
CallLeaves cs _ = Unit

abbrev CallsLeave : List ToolCall → CallsEnd → Type 0
CallsLeave cs (all_done parts t) = IsOpen cs t
CallsLeave cs _ = Unit

abbrev LeavesNone : Next → Type 0
LeavesNone (loops s) = IsOpen [] s.transcript
LeavesNone _ = Unit

after_call-leaves :
    (rest : List Text → Transcript → CallsEnd) (cs : List ToolCall) (parts : List Text)
    (e : CallEnd)
    → ((parts : List Text) (t : Transcript) → IsOpen cs t → CallsLeave [] (rest parts t))
    → CallLeaves cs e
    → CallsLeave [] (after_call rest parts e)
after_call-leaves rest cs parts (goes_on part t) ih h = ih (parts ++ part_list part) t h
after_call-leaves rest cs parts (finishes s t) ih h = tt
after_call-leaves rest cs parts (call_throws t) ih h = tt

if-leaves : (b : Bool) (x y : Next) → LeavesNone x → LeavesNone y → LeavesNone (if b then x else y)
if-leaves true x y p q = p
if-leaves false x y p q = q

if-CallLeaves :
    (cs : List ToolCall) (b : Bool) (x y : CallEnd)
    → CallLeaves cs x
    → CallLeaves cs y
    → CallLeaves cs (if b then x else y)
if-CallLeaves cs true x y p q = p
if-CallLeaves cs false x y p q = q

end_turn-leaves :
    (stall step : ℕ) (s : State) (parts : List Text) (t : Transcript)
    → IsOpen [] t
    → LeavesNone (end_turn stall step s parts t)
unfolding end_turn
end_turn-leaves stall step s parts t h =
    let print = join (lit "||") parts in
    let n = s.repeats + 1 in
    let warned = log (repeated (n + 1)) t in
    if-leaves (not (is_empty print) && same_text s.last print)
      (if ltb 0 stall && leb stall n
        then returns (lit "Stall detected from repeated tool-call cycles") step stall_detected
            warned
        else loops (record { step = step; last = some print; repeats = n; transcript = warned }))
      (loops (record { step = step; last = some print; repeats = 0; transcript = t }))
      (if-leaves (ltb 0 stall && leb stall n)
        (returns (lit "Stall detected from repeated tool-call cycles") step stall_detected warned)
        (loops (record { step = step; last = some print; repeats = n; transcript = warned })) tt h)
      h

after_calls-leaves :
    (stall step : ℕ) (s : State) (e : CallsEnd)
    → CallsLeave [] e
    → LeavesNone (after_calls stall step s e)
after_calls-leaves stall step s (all_done parts t) h = end_turn-leaves stall step s parts t h
after_calls-leaves stall step s (finished text t) h = tt
after_calls-leaves stall step s (calls_threw t) h = tt

noted-IsOpen :
    (step : ℕ) (s : Text) (cs : List ToolCall) (t : Transcript)
    → IsOpen cs t
    → IsOpen cs (noted_progress step s t)
noted-IsOpen step [] cs t h = h
noted-IsOpen step (c ∷ s) cs t h = h

module _ (stringify : Json → Text) (parse : Text → Option Json) (explain : Text → Text)
    (knows : Text → Bool) where
  completed-leaves :
      (r : Request) (args : Json) (cs : List ToolCall) (t : Transcript) (o : Option Normalized)
      → IsOpen (r.call ∷ cs) t
      → CallLeaves cs (completed stringify parse explain knows r args t o)
  completed-leaves r args cs t none h = tt
  completed-leaves r args cs t (some n) h =
      let t' = log (called (call_id r) r.call.name (lit "completed")) t in
      if-CallLeaves cs n.is_done (finishes n.content t')
        (goes_on
          (some (fingerprint_part stringify parse explain knows r.call.name args n.fingerprint))
          (follow n.follow_up (add_message (tool n.content (call_id r) r.call.name) t')))
        tt
        (follow-IsOpen cs n.follow_up (add_message (tool n.content (call_id r) r.call.name) t')
          (answer-IsOpen r cs n.content t' h))

  answered-leaves :
      (r : Request) (args : Json) (cs : List ToolCall) (t : Transcript) (a : Answer)
      → IsOpen (r.call ∷ cs) t
      → CallLeaves cs (answered stringify parse explain knows r args t a)
  answered-leaves r args cs t aborts h = tt
  answered-leaves r args cs t (fails message) h =
      answer-IsOpen r cs (error_text stringify parse explain knows r.call.name message)
        (log (called (call_id r) r.call.name (lit "failed")) t) h
  answered-leaves r args cs t (gives result) h =
      completed-leaves r args cs t (normalize_result stringify r.call.name result) h

  with_args-leaves :
      (r : Request) (cs : List ToolCall) (t : Transcript) (o : Option Json)
      → IsOpen (r.call ∷ cs) t
      → CallLeaves cs (with_args stringify parse explain knows r t o)
  with_args-leaves r cs t none h =
      answer-IsOpen r cs (bad_args stringify parse explain knows r.call.args)
        (log (called (call_id r) r.call.name (lit "failed")) t) h
  with_args-leaves r cs t (some args) h =
      let t' = log (called (call_id r) r.call.name (lit "in_progress")) t in
      if-CallLeaves cs (knows r.call.name)
        (answered stringify parse explain knows r args t' r.answer)
        (unfit stringify parse explain knows r (lit "ERROR: unknown tool " ++ r.call.name) t)
        (answered-leaves r args cs t' r.answer h)
        (answer-IsOpen r cs (lit "ERROR: unknown tool " ++ r.call.name)
          (log (called (call_id r) r.call.name (lit "failed")) t) h)

  run_call-leaves :
      (r : Request) (cs : List ToolCall) (t : Transcript)
      → IsOpen (r.call ∷ cs) t
      → CallLeaves cs (run_call stringify parse explain knows r t)
  unfolding run_call
  run_call-leaves r cs t h =
      let args = args_of stringify parse explain knows r.call.args in
      if-CallLeaves cs r.aborted (call_throws t) (with_args stringify parse explain knows r t args)
        tt (with_args-leaves r cs t args h)

  run_calls-leaves :
      (rs : List Request) (parts : List Text) (t : Transcript)
      → IsOpen (calls_of rs) t
      → CallsLeave [] (run_calls stringify parse explain knows rs parts t)
  unfolding run_calls
  run_calls-leaves [] parts t h = h
  run_calls-leaves (r ∷ rs) parts t h =
      after_call-leaves (run_calls stringify parse explain knows rs) (calls_of rs) parts
        (run_call stringify parse explain knows r t) (run_calls-leaves rs)
        (run_call-leaves r (calls_of rs) t h)

  take_calls-leaves :
      (stall step : ℕ) (s : State) (content : Json) (rs : List Request) (t : Transcript)
      → IsOpen [] t
      → LeavesNone (take_calls stringify parse explain knows stall step s content rs t)
  unfolding take_calls
  take_calls-leaves stall step s content [] t h = tt
  take_calls-leaves stall step s content (r ∷ rs) t h =
      let said = add_message (assistant content (calls_of (r ∷ rs))) t in
      let noted = noted_progress step (assistant_text content) said in
      after_calls-leaves stall step s (run_calls stringify parse explain knows (r ∷ rs) [] noted) (
        run_calls-leaves (r ∷ rs) [] noted (
          noted-IsOpen step (assistant_text content) (calls_of (r ∷ rs)) said
            (add-IsOpen [] (calls_of (r ∷ rs)) (assistant content (calls_of (r ∷ rs))) t h refl)))

  replied-leaves :
      (stall step : ℕ) (s : State) (t : Transcript) (a : Reply)
      → IsOpen [] t
      → LeavesNone (replied stringify parse explain knows stall step s t a)
  replied-leaves stall step s t throws h = tt
  replied-leaves stall step s t (says content rs aborted) h =
      if-leaves aborted (loop_throws t)
        (take_calls stringify parse explain knows stall step s (normalize_assistant_content content)
          rs t)
        tt (take_calls-leaves stall step s (normalize_assistant_content content) rs t h)

  turn-leaves :
      (limit : Option ℕ) (stall : ℕ) (e : Turn) (s : State)
      → IsOpen [] s.transcript
      → LeavesNone (turn stringify parse explain knows limit stall e s)
  unfolding turn
  turn-leaves limit stall e s h =
      let next =
        replied stringify parse explain knows stall (s.step + 1) s
          (log (thinking (s.step + 1)) s.transcript) e.reply in
      let over =
        returns (lit "Loop limit reached without completion") s.step max_steps s.transcript in
      if-leaves e.aborted (loop_throws s.transcript) (if is_over limit s.step then over else next)
        tt
        (if-leaves (is_over limit s.step) over next tt (
          replied-leaves stall (s.step + 1) s (log (thinking (s.step + 1)) s.transcript) e.reply h))

  continue-leaves :
      (rest : State → Next) (n : Next)
      → ((s : State) → IsOpen [] s.transcript → LeavesNone (rest s))
      → LeavesNone n
      → LeavesNone (continue rest n)
  continue-leaves rest (loops s) ih h = ih s h
  continue-leaves rest (returns text n why t) ih h = tt
  continue-leaves rest (loop_throws t) ih h = tt

  run-leaves :
      (limit : Option ℕ) (stall : ℕ) (es : List Turn) (s : State)
      → IsOpen [] s.transcript
      → LeavesNone (run stringify parse explain knows limit stall es s)
  unfolding run
  run-leaves limit stall [] s h = h
  run-leaves limit stall (e ∷ es) s h =
      continue-leaves (run stringify parse explain knows limit stall es)
        (turn stringify parse explain knows limit stall e s) (run-leaves limit stall es)
        (turn-leaves limit stall e s h)

  -- Whenever the loop asks the model again, each tool call of each message of the model has been answered
  -- by one tool message, under its name and its id, in the order of the calls and before the next message
  -- of the model; there are no other tool messages.
  pub every_call_answered :
      (limit : Option ℕ) (stall : ℕ) (es : List Turn) (s s' : State)
      → IsOpen [] s.transcript
      → run stringify parse explain knows limit stall es s ≡ loops s'
      → IsOpen [] s'.transcript
  every_call_answered limit stall es s s' h e = subst LeavesNone e (run-leaves limit stall es s h)
