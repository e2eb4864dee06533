-- ===== src/Agent/Loop.antt =====
-- The loop of `runAgentLoop` in src/runtime/runAgentLoop.js, over what the model and the tools answer.
use ender.Prelude.{
  ℕ, ◌+◌, Bool, false, not, ◌&&◌, List, [], ◌∷◌, ◌++◌, Option, none, some, Text, lit, is_empty,
  text_eq, text_or, take, or_else, leb, ltb, if◌then◌else◌,
}
use ender.Json.{Json, boolean, string, object, end, field, sanitize}
use ender.Json.Read.{truthy, string_of}
use ender.Agent.{
  ToolCall, Message, human, assistant, tool, Event, thinking, progress, called, repeated,
  normalize_assistant_content, assistant_text, answer_text, join, Normalized, normalize_result,
}

-- What a call of a tool comes to: a result (`none` if it is undefined), an error with its message, or an
-- abort, which is also an abort that shows once the tool has answered.
pub data Answer : Type 0 where
  gives : Option Json → Answer
  fails : Text → Answer
  aborts : Answer

-- A call with what happens around it: an abort before it, the id that createActivityId gives.
pub record Request : Type 0 where
  pub call : ToolCall
  pub aborted : Bool
  pub fresh_id : Text
  pub answer : Answer

-- What the model answers: an exception, or its content with its calls. The flag is an abort after it.
pub data Reply : Type 0 where
  throws : Reply
  says : Option Json → List Request → Bool → Reply

-- A turn of the environment; the flag is an abort before the turn.
pub record Turn : Type 0 where
  pub aborted : Bool
  pub reply : Reply

-- The messages, and the events logged, the last first.
pub record Transcript : Type 0 where
  pub messages : List Message
  pub events : List Event

abbrev pub add_message : Message → Transcript → Transcript
add_message m t = record t { messages = t.messages ++ m ∷ [] }

abbrev pub log : Event → Transcript → Transcript
log e t = record t { events = e ∷ t.events }

-- What a tool call does to the loop: it goes on, with a part of the fingerprint or none; it ends with a
-- result; or it throws.
pub data CallEnd : Type 0 where
  goes_on : Option Text → Transcript → CallEnd
  finishes : Text → Transcript → CallEnd
  call_throws : Transcript → CallEnd

-- What the tool calls of a turn do to the loop.
pub data CallsEnd : Type 0 where
  all_done : List Text → Transcript → CallsEnd
  finished : Text → Transcript → CallsEnd
  calls_threw : Transcript → CallsEnd

-- The state of the loop between two turns.
pub record State : Type 0 where
  pub step : ℕ
  pub last : Option Text  -- lastFingerprint
  pub repeats : ℕ  -- repeatedIterationCount
  pub transcript : Transcript

pub data StopReason : Type 0 where
  max_steps no_tool_calls stop_word stall_detected : StopReason

pub data Next : Type 0 where
  loops : State → Next
  returns : Text → ℕ → StopReason → Transcript → Next
  loop_throws : Transcript → Next

abbrev pub call_id : Request → Text
call_id r = text_or (or_else r.call.id []) r.fresh_id

abbrev pub follow : Option Json → Transcript → Transcript
follow none t = t
follow (some content) t = add_message (human content) t

abbrev pub part_list : Option Text → List Text
part_list none = []
part_list (some s) = s ∷ []

abbrev pub after_call : (List Text → Transcript → CallsEnd) → List Text → CallEnd → CallsEnd
after_call rest parts (goes_on part t) = rest (parts ++ part_list part) t
after_call rest parts (finishes s t) = finished s t
after_call rest parts (call_throws t) = calls_threw t

abbrev pub calls_of : List Request → List ToolCall
calls_of [] = []
calls_of (r ∷ rs) = r.call ∷ calls_of rs

abbrev pub same_text : Option Text → Text → Bool
same_text none s = false
same_text (some t) s = text_eq s t

-- The end of a turn: the fingerprint is compared with that of the turn before.
unfoldable pub end_turn : ℕ → ℕ → State → List Text → Transcript → Next
unfolding join
end_turn stall_limit step s parts t =
    let print = join (lit "||") parts in
    let n = s.repeats + 1 in
    let warned = log (repeated (n + 1)) t in
    if not (is_empty print) && same_text s.last print
    then if ltb 0 stall_limit && leb stall_limit n
      then returns (lit "Stall detected from repeated tool-call cycles") step stall_detected warned
      else loops (record { step = step; last = some print; repeats = n; transcript = warned })
    else loops (record { step = step; last = some print; repeats = 0; transcript = t })

abbrev pub after_calls : ℕ → ℕ → State → CallsEnd → Next
after_calls stall_limit step s (all_done parts t) = end_turn stall_limit step s parts t
after_calls stall_limit step s (finished text t) = returns text step stop_word t
after_calls stall_limit step s (calls_threw t) = loop_throws t

abbrev pub noted_progress : ℕ → Text → Transcript → Transcript
noted_progress step [] t = t
noted_progress step (c ∷ s) t = log (progress step (c ∷ s)) t

abbrev pub is_over : Option ℕ → ℕ → Bool
is_over none step = false
is_over (some n) step = leb n step

abbrev pub continue : (State → Next) → Next → Next
continue rest (loops s) = rest s
continue rest (returns text n why t) = returns text n why t
continue rest (loop_throws t) = loop_throws t

-- `parse` is JSON.parse, `explain` the message of its exception, `knows` whether there is such a tool.
module _ (stringify : Json → Text) (parse : Text → Option Json) (explain : Text → Text)
    (knows : Text → Bool) where
  abbrev pub args_of : Option Json → Option Json
  args_of none = some (object end)
  args_of (some (string [])) = parse (lit "{}")
  args_of (some (string (c ∷ s))) = parse (c ∷ s)
  args_of (some j) = some (if truthy j then j else object end)

  unfoldable pub fingerprint_part : Text → Json → Text → Text
  fingerprint_part name args s = stringify (
      object (
        field (lit "name") (string name)
          (field (lit "args") (sanitize args) (field (lit "content") (string (take 300 s)) end))))

  abbrev pub error_text : Text → Text → Text
  error_text name message = stringify (
      sanitize (
        object (
          field (lit "ok") (boolean false) (
            field (lit "error") (string (lit "tool_invocation_failed"))
              (field (lit "tool") (string name) (field (lit "message") (string message) end))))))

  abbrev pub completed : Request → Json → Transcript → Option Normalized → CallEnd
  completed r args t none = call_throws t
  completed r args t (some n) =
      let t' = log (called (call_id r) r.call.name (lit "completed")) t in
      if n.is_done
      then finishes n.content t'
      else goes_on (some (fingerprint_part r.call.name args n.fingerprint))
          (follow n.follow_up (add_message (tool n.content (call_id r) r.call.name) t'))

  abbrev pub answered : Request → Json → Transcript → Answer → CallEnd
  answered r args t aborts = call_throws t
  answered r args t (fails message) =
      let content = error_text r.call.name message in
      goes_on (some (fingerprint_part r.call.name args content)) (
        add_message (tool content (call_id r) r.call.name)
          (log (called (call_id r) r.call.name (lit "failed")) t))
  answered r args t (gives result) =
      completed r args t (normalize_result stringify r.call.name result)

  abbrev pub unfit : Request → Text → Transcript → CallEnd
  unfit r content t = goes_on none (
      add_message (tool content (call_id r) r.call.name)
        (log (called (call_id r) r.call.name (lit "failed")) t))

  abbrev pub bad_args : Option Json → Text
  bad_args args = stringify (
      object (
        field (lit "ok") (boolean false) (
          field (lit "error") (string (lit "tool_args_invalid_json"))
            (field (lit "message") (string (explain (string_of args))) end))))

  abbrev pub with_args : Request → Transcript → Option Json → CallEnd
  with_args r t none = unfit r (bad_args r.call.args) t
  with_args r t (some args) =
      if knows r.call.name
      then answered r args (log (called (call_id r) r.call.name (lit "in_progress")) t) r.answer
      else unfit r (lit "ERROR: unknown tool " ++ r.call.name) t

  -- One tool call.
  unfoldable pub run_call : Request → Transcript → CallEnd
  unfolding fingerprint_part
  run_call r t = if r.aborted then call_throws t else with_args r t (args_of r.call.args)

  -- The loop over the tool calls; `parts` are the parts of the fingerprint.
  unfoldable pub run_calls : List Request → List Text → Transcript → CallsEnd
  unfolding run_call
  run_calls [] parts t = all_done parts t
  run_calls (r ∷ rs) parts t = after_call (run_calls rs) parts (run_call r t)

  -- The calls of the model's message, or its answer if there are none.
  unfoldable pub take_calls : ℕ → ℕ → State → Json → List Request → Transcript → Next
  unfolding run_calls end_turn
  take_calls stall_limit step s content [] t =
      returns (text_or (answer_text content) (lit "Model returned without tool calls")) step
        no_tool_calls (add_message (assistant content []) t)
  take_calls stall_limit step s content (r ∷ rs) t = after_calls stall_limit step s (
      run_calls (r ∷ rs) [] (
        noted_progress step (assistant_text content)
          (add_message (assistant content (calls_of (r ∷ rs))) t)))

  abbrev pub replied : ℕ → ℕ → State → Transcript → Reply → Next
  replied stall_limit step s t throws = loop_throws t
  replied stall_limit step s t (says content rs aborted) =
      if aborted
      then loop_throws t
      else take_calls stall_limit step s (normalize_assistant_content content) rs t

  -- One turn.
  unfoldable pub turn : Option ℕ → ℕ → Turn → State → Next
  unfolding take_calls
  turn limit stall_limit e s =
      if e.aborted
      then loop_throws s.transcript
      else if is_over limit s.step
      then returns (lit "Loop limit reached without completion") s.step StopReason.max_steps
          s.transcript
      else replied stall_limit (s.step + 1) s (log (thinking (s.step + 1)) s.transcript) e.reply

  -- The loop, over the turns of the environment; `loops` where it waits for one more.
  unfoldable pub run : Option ℕ → ℕ → List Turn → State → Next
  unfolding turn
  run limit stall_limit [] s = loops s
  run limit stall_limit (e ∷ es) s =
      continue (run limit stall_limit es) (turn limit stall_limit e s)

-- The state in which the loop starts.
abbrev pub start : List Message → State
start messages = record {
  step = 0;
  last = none;
  repeats = 0;
  transcript = record { messages = messages; events = [] };
}
