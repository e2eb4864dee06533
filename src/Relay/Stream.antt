-- ===== src/Relay/Stream.antt =====
-- `createTaskStreamHandler` of src/pillar/server.js: a client's stream of a task on a server behind the
-- relay, fed by polling the task and its logs. Number(value), of the position in the logs, is a
-- parameter: `none` is no finite number.
pub mod Approvals
use ender.Prelude.{
  ℕ, ◌+◌, Bool, true, false, not, ◌&&◌, ◌||◌, List, [], ◌∷◌, ◌++◌, Option, none, some, Text, lit,
  text_eq, length, if◌then◌else◌,
}
use ender.Json.{Json, null, string, array}
use ender.Json.Read.{member, is_truthy, or_truthy, same_value, array_items}

pub data SseEvent : Type 0 where
  status : Option Json → SseEvent
  log : Json → SseEvent
  approval_required : Json → SseEvent
  complete : Option Json → Json → SseEvent
  error : Text → SseEvent

pub record Stream : Type 0 where
  pub log_cursor : ℕ
  pub last_status : Option Json
  pub sent_initial_status : Bool
  pub seen_approval_ids : List (Option Json)
  pub out : List SseEvent
  pub ended : Bool

abbrev pub new_stream : Stream
new_stream = record {
  log_cursor = 0;
  last_status = some null;
  sent_initial_status = false;
  seen_approval_ids = [];
  out = [];
  ended = false;
}

abbrev pub write : SseEvent → Stream → Stream
write e s = record s { out = s.out ++ e ∷ [] }

unfoldable pub has_seen : Option Json → List (Option Json) → Bool
has_seen id [] = false
has_seen id (x ∷ xs) = same_value x id || has_seen id xs

abbrev is_name : Text → Option Json → Bool
is_name name s = same_value s (some (string name))

-- `isTerminalStatus`
abbrev pub is_terminal_status : Option Json → Bool
is_terminal_status s =
    is_name (lit "done") s
    || is_name (lit "error") s
    || is_name (lit "canceled") s
    || is_name (lit "terminated") s
    || is_name (lit "blocked") s
    || is_name (lit "needs_input") s

abbrev pub write_status : Option Json → Stream → Stream
write_status status_now s = write (status status_now) (record s { last_status = status_now })

unfoldable pub write_logs : List Json → Stream → Stream
write_logs [] s = s
write_logs (l ∷ ls) s = write_logs ls (write (log l) s)

abbrev cursor_after : Option ℕ → ℕ → ℕ → ℕ
cursor_after none n cursor = cursor + n
cursor_after (some to) n cursor = to

abbrev pub take_logs : (Option Json → Option ℕ) → Option Json → Option Json → Stream → Stream
take_logs number_of to (some (array js)) s =
    let ls = array_items (some (array js)) in
    let x = write_logs ls s in
    record x { log_cursor = cursor_after (number_of to) (length ls) x.log_cursor }
take_logs number_of to entries s = s

-- The approvals that are not known yet.
unfoldable pub write_approvals : List Json → Stream → Stream
unfolding has_seen
write_approvals [] s = s
write_approvals (a ∷ rest) s =
    let id = member (lit "id") a in
    let known = write_approvals rest s in
    let new = write_approvals rest (
      write (approval_required a)
        (record s { seen_approval_ids = s.seen_approval_ids ++ id ∷ [] })) in
    if not (is_truthy id) || has_seen id s.seen_approval_ids then known else new

abbrev pub or_null : Option Json → Json
or_null none = null
or_null (some j) = j

abbrev pub finish : Option Json → Json → Stream → Stream × Bool
finish status_now result s =
    if is_terminal_status status_now
    then (write (complete status_now result) s, false)
    else (s, true)

-- The first status is told before the logs, a later one after them.
abbrev pub tell_first : Option Json → Bool → Stream → Stream
tell_first now changed s =
    if changed && not s.sent_initial_status
    then write_status now (record s { sent_initial_status = true })
    else s

abbrev pub tell_change : Option Json → Bool → Stream → Stream
tell_change now changed s =
    if changed && s.sent_initial_status && not (same_value now s.last_status)
    then write_status now s
    else s

-- `tick`, after its two calls, with what they gave; the flag says whether to go on.
unfoldable pub tick : (Option Json → Option ℕ) → Json → Json → Stream → Stream × Bool
unfolding write_logs write_approvals
tick number_of task logs s =
    let now = member (lit "status") task in
    let changed = is_truthy now && not (same_value now s.last_status) in
    let logged =
      take_logs number_of (member (lit "to") logs) (member (lit "entries") logs)
        (tell_first now changed s) in
    let told = tell_change now changed logged in
    let asked = write_approvals (array_items (member (lit "pendingApprovals") task)) told in
    finish now (or_null (or_truthy (member (lit "result") task) none)) asked

-- What the two calls of a tick end with: the client has gone, both answers, or an exception.
pub data Poll : Type 0 where
  gone : Poll
  answers : Json → Json → Poll
  fails : Text → Poll

abbrev pub end_stream : Stream → Stream
end_stream s = record s { ended = true }

-- The loop, over what its polls give, with its `catch` and `finally`.
unfoldable pub run_stream : (Option Json → Option ℕ) → List Poll → Stream → Stream
unfolding tick
run_stream number_of [] s = s
run_stream number_of (gone ∷ rest) s = s
run_stream number_of (fails m ∷ rest) s = end_stream (write (error m) s)
run_stream number_of (answers task logs ∷ rest) s =
    let r = tick number_of task logs s in
    let more = run_stream number_of rest (r.0) in if r.1 then more else end_stream (r.0)
