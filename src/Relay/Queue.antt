-- ===== src/Relay/Queue.antt =====
-- The queue of requests of one server, `PillarRelay` of src/pillar/server.js: clients' requests wait
-- for the server to poll them, and its responses settle them. The model's server holds also the timers
-- that are set and what was sent on the promises of its calls.
use ender.Prelude.{
  ℕ, Bool, true, false, not, ◌||◌, List, [], ◌∷◌, ◌++◌, map, Option, none, some, Text, lit, text_eq,
  includes, take, drop, keep, ltb, ◌==◌, Map, insert, lookup, remove, if◌then◌else◌,
}
use ender.Relay.{Base64, Input, Request, Wire, Response, Answer, new_request, to_wire, answer_of}

abbrev either : Option Text → Option Text → Option Text
either none d = d
either (some s) d = some s

-- What a promise is settled with: a poll with its requests, a request with its answer, or with the
-- error `pillar_request_timeout`.
pub data Event : Type 0 where
  polled : ℕ → List Wire → Event
  answered : Text → Answer → Event
  timed_out : Text → Event

-- A poll that waits; the capacity is `none` when it is no number above 0.
pub record Waiter : Type 0 where
  pub number : ℕ
  pub capacity : Option ℕ

pub record Server : Type 0 where
  pub id : Text
  pub connected : Bool
  pub last_poll_at : Option Text
  pub last_response_at : Option Text
  pub instance_id : Option Text
  pub pending : List Request
  pub inflight : Map Request
  pub waiters : List Waiter
  pub timers : List Text
  pub out : List Event

abbrev pub new_server : Text → Server
new_server id = record {
  id = id;
  connected = false;
  last_poll_at = none;
  last_response_at = none;
  instance_id = none;
  pending = [];
  inflight = [];
  waiters = [];
  timers = [];
  out = [];
}

-- `Math.max(1, Math.min(10, Number(capacity) || 1))`
unfoldable pub batch_size : Option ℕ → ℕ
batch_size none = 1
batch_size (some n) = if n == 0 then 1 else if ltb 10 n then 10 else n

abbrev pub delivered : Text → Request → Request
delivered now r = record r { delivered_at = some now }

unfoldable pub deliver : Text → List Request → Map Request → Map Request
deliver now [] m = m
deliver now (r ∷ rs) m = deliver now rs (insert r.id (delivered now r) m)

-- `takeRequests`
unfoldable pub take_requests : Text → Option ℕ → Server → Server × List Wire
unfolding deliver batch_size
take_requests now capacity s =
    let requests = take (batch_size capacity) s.pending in
    (
      record s {
        pending = drop (batch_size capacity) s.pending;
        inflight = deliver now requests s.inflight;
      },
      map to_wire requests,
    )

abbrev pub send : Event → Server → Server
send e s = record s { out = s.out ++ e ∷ [] }

abbrev pub serve_waiter : Text → Waiter → Server → Server
serve_waiter now w s = let r = take_requests now w.capacity s in send (polled w.number (r.1)) (r.0)

abbrev pub is_nil {ℓ} : {A : Type ℓ} → List A → Bool
is_nil [] = true
is_nil (x ∷ xs) = false

-- `flushWaiters`, over the polls that wait.
unfoldable pub flush_loop : Text → List Waiter → Server → Server
unfolding take_requests
flush_loop now [] s = record s { waiters = [] }
flush_loop now (w ∷ ws) s =
    let later = flush_loop now ws (serve_waiter now w s) in
    if is_nil s.pending then record s { waiters = w ∷ ws } else later

abbrev pub flush_waiters : Text → Server → Server
flush_waiters now s = flush_loop now s.waiters s

-- `enqueue`; the id is what randomUUID gives.
unfoldable pub enqueue : Base64 → Text → Text → Input → Server → Server
unfolding new_request flush_loop
enqueue b now id input s = flush_waiters now (record s {
  pending = s.pending ++ new_request b now id input ∷ [];
  timers = s.timers ++ id ∷ [];
})

abbrev pub is_not : Text → Text → Bool
is_not id k = not (text_eq k id)

-- The timer of a request fires.
unfoldable pub time_out : Text → Server → Server
time_out id s =
    if includes s.timers id
    then send (timed_out id) (record s {
      inflight = remove id s.inflight;
      pending = keep (λ r. is_not id (r.id)) s.pending;
      timers = keep (is_not id) s.timers;
    })
    else s

abbrev pub with_poll : Text → Option Text → Server → Server
with_poll now instance_id s = record s {
  connected = true;
  instance_id = either instance_id s.instance_id;
  last_poll_at = some now;
}

abbrev pub polled_by : ℕ → Option ℕ → Server × List Wire → Server
polled_by n capacity (s, []) = record s {
  waiters = s.waiters ++ record { number = n; capacity = capacity } ∷ [];
}
polled_by n capacity (s, w ∷ ws) = send (polled n (w ∷ ws)) s

-- `poll`; `n` numbers the poll.
unfoldable pub poll : Text → ℕ → Option Text → Option ℕ → Server → Server
unfolding take_requests
poll now n instance_id capacity s =
    polled_by n capacity (take_requests now capacity (with_poll now instance_id s))

abbrev pub is_poll : ℕ → Waiter → Bool
is_poll n w = w.number == n

abbrev pub has_poll : ℕ → List Waiter → Bool
has_poll n [] = false
has_poll n (w ∷ ws) = is_poll n w || has_poll n ws

-- The timer of a poll that waits fires.
unfoldable pub end_poll : ℕ → Server → Server
end_poll n s =
    if has_poll n s.waiters
    then send (polled n []) (record s { waiters = keep (λ w. not (is_poll n w)) s.waiters })
    else s

pub data Reply : Type 0 where
  accepted : Reply
  refused : Text → Reply

abbrev pub completed : Base64 → Text → Text → Response → Server → Option Request → Server × Reply
completed b now id response s none = (s, refused (lit "request_not_found"))
completed b now id response s (some r) = (
  send (answered r.id (answer_of b response)) (record s {
    timers = keep (is_not r.id) s.timers;
    inflight = remove r.id s.inflight;
    last_response_at = some now;
  }),
  accepted,
)

-- `complete`
unfoldable pub complete : Base64 → Text → Text → Response → Server → Server × Reply
complete b now id response s = completed b now id response s (lookup id s.inflight)

-- What is done to one server.
pub data Act : Type 0 where
  enqueues : Text → Input → Act
  polls : ℕ → Option Text → Option ℕ → Act
  completes : Text → Response → Act
  times_out : Text → Act
  ends_poll : ℕ → Act

unfoldable pub act : Base64 → Text → Act → Server → Server
unfolding enqueue poll complete time_out end_poll
act b now (enqueues id input) s = enqueue b now id input s
act b now (polls n instance_id capacity) s = poll now n instance_id capacity s
act b now (completes id response) s = (complete b now id response s).0
act b now (times_out id) s = time_out id s
act b now (ends_poll n) s = end_poll n s

-- Acts, each with the time of it.
unfoldable pub run_acts : Base64 → List (Text × Act) → Server → Server
unfolding act
run_acts b [] s = s
run_acts b ((now, a) ∷ rest) s = run_acts b rest (act b now a s)
