-- ===== src/Relay/Servers.antt =====
-- The relay of src/pillar/server.js as a map of servers: each call finds its server by the id of the
-- route, or makes it.
use ender.Prelude.{
  ℕ, Bool, true, false, List, [], ◌∷◌, map, Option, none, some, Text, lit, text_eq, text_eq_iff,
  text_eq→eq, includes, if-holds, is_empty, trim, length, Map, insert, lookup, lookup-insert,
  values, ◌≡◌, refl, ap, sym, ◌∙◌, arith, if◌then◌else◌,
}
use ender.Relay.{Base64, Input, Response}
use ender.Relay.Queue.{
  Server, Act, Event, Reply, accepted, refused, enqueues, polls, completes, times_out, ends_poll,
  polled, act, run_acts, enqueue, poll, complete, time_out, end_poll, new_server,
}

abbrev pub server_or_new : Text → Option Server → Server
server_or_new id none = new_server id
server_or_new id (some s) = s

-- `getServer`, for a text that is no empty id.
abbrev pub get_server : Text → Map Server → Server
get_server id m = server_or_new id (lookup id m)

abbrev pub on_server : Text → (Server → Server) → Map Server → Map Server
on_server id f m = if is_empty id then m else insert id (f (get_server id m)) m

-- `PillarRelay.enqueue`
unfoldable pub enqueue_to : Base64 → Text → Text → Text → Input → Map Server → Map Server × Reply
unfolding enqueue
enqueue_to b now server_id id input m =
    let key = trim server_id in
    (
      on_server key (enqueue b now id input) m,
      if is_empty key then refused (lit "server_id_required") else accepted,
    )

-- `PillarRelay.poll`: without a server it is answered at once.
unfoldable pub poll_at :
    Text → Text → ℕ → Option Text → Option ℕ → Map Server → Map Server × List Event
unfolding poll
poll_at now server_id n instance_id capacity m =
    let key = trim server_id in
    (
      on_server key (poll now n instance_id capacity) m,
      if is_empty key then polled n [] ∷ [] else [],
    )

-- `PillarRelay.complete`
unfoldable pub complete_at :
    Base64 → Text → Text → Text → Response → Map Server → Map Server × Reply
unfolding complete
complete_at b now server_id id response m =
    let key = trim server_id in
    (
      on_server key (λ s. (complete b now id response s).0) m,
      if is_empty key
          then refused (lit "request_not_found")
          else (complete b now id response (get_server key m)).1,
    )

abbrev on_known : Text → (Server → Server) → Map Server → Option Server → Map Server
on_known key f m none = m
on_known key f m (some s) = insert key (f s) m

-- The timers of a server's requests and polls.
unfoldable pub on_timer : Text → (Server → Server) → Map Server → Map Server
on_timer key f m = on_known key f m (lookup key m)

pub record Summary : Type 0 where
  pub id : Text
  pub connected : Bool
  pub last_poll_at : Option Text
  pub last_response_at : Option Text
  pub instance_id : Option Text
  pub pending : ℕ
  pub inflight : ℕ

abbrev summary_of : Server → Summary
summary_of s = record {
  id = s.id;
  connected = s.connected;
  last_poll_at = s.last_poll_at;
  last_response_at = s.last_response_at;
  instance_id = s.instance_id;
  pending = length s.pending;
  inflight = length s.inflight;
}

-- `listServers`
unfoldable pub list_servers : Map Server → List Summary
list_servers m = map summary_of (values m)

-- A call of the relay, or a timer of one of its servers.
pub record Call : Type 0 where
  pub now : Text
  pub server_id : Text
  pub what : Act

abbrev pub call_by : Base64 → Text → Text → Act → Map Server → Map Server
call_by b now id (enqueues r input) m = (enqueue_to b now id r input m).0
call_by b now id (polls n instance_id capacity) m = (poll_at now id n instance_id capacity m).0
call_by b now id (completes r response) m = (complete_at b now id r response m).0
call_by b now id (times_out r) m = on_timer id (time_out r) m
call_by b now id (ends_poll n) m = on_timer id (end_poll n) m

unfoldable pub run_calls : Base64 → List Call → Map Server → Map Server
unfolding enqueue_to poll_at complete_at on_timer
run_calls b [] m = m
run_calls b (c ∷ cs) m = run_calls b cs (call_by b c.now c.server_id c.what m)

-- The server that a call is for; a timer has it at hand.
abbrev pub target : Text → Act → Text
target id (times_out r) = id
target id (ends_poll n) = id
target id a = trim id

-- What is done to one server.
unfoldable pub acts_of : Text → List Call → List (Text × Act)
acts_of k [] = []
acts_of k (c ∷ cs) =
    let rest = acts_of k cs in
    if text_eq (target c.server_id c.what) k then (c.now, c.what) ∷ rest else rest

get-insert :
    (id k : Text) (v : Server) (m : Map Server)
    → get_server k (insert id v m) ≡ (if text_eq id k then v else get_server k m)
get-insert id k v m = ap (server_or_new k) (lookup-insert id k v m) ∙ by_test (text_eq id k)
  where
    by_test :
        (t : Bool)
        → server_or_new k (if t then some v else lookup k m) ≡ (if t then v else get_server k m)
    by_test true = refl
    by_test false = refl

inserted-get :
    (id k : Text) (f : Server → Server) (m : Map Server)
    → get_server k (insert id (f (get_server id m)) m)
      ≡ (if text_eq id k then f (get_server k m) else get_server k m)
inserted-get id k f m =
    get-insert id k (f (get_server id m)) m ∙ by_test (text_eq id k) (text_eq→eq id k)
  where
    by_test :
        (t : Bool)
        → (t ≡ true → id ≡ k)
        → (if t then f (get_server id m) else get_server k m)
          ≡ (if t then f (get_server k m) else get_server k m)
    by_test true e = ap (λ j. f (get_server j m)) (e refl)
    by_test false e = refl

on_server-get :
    (id k : Text) (f : Server → Server) (m : Map Server)
    → is_empty k ≡ false
    → get_server k (on_server id f m)
      ≡ (if text_eq id k then f (get_server k m) else get_server k m)
on_server-get id k f m h =
    if-holds (λ x. get_server k x ≡ (if text_eq id k then f (get_server k m) else get_server k m))
      (is_empty id) m (insert id (f (get_server id m)) m) (λ e. ground (arith, text_eq_iff id k))
      (λ _. inserted-get id k f m)

on_timer-get :
    (id k : Text) (f : Server → Server) (m : Map Server)
    → f (new_server k) ≡ new_server k
    → get_server k (on_timer id f m) ≡ (if text_eq id k then f (get_server k m) else get_server k m)
unfolding on_timer
on_timer-get id k f m h = by_server (lookup id m) refl
  where
    absent :
        (t : Bool)
        → (t ≡ true → id ≡ k)
        → lookup id m ≡ none
        → get_server k m ≡ (if t then f (get_server k m) else get_server k m)
    absent true same e =
        let gone = ap (server_or_new k) (ap (λ j. lookup j m) (sym (same refl)) ∙ e) in
        gone ∙ (sym h ∙ ap f (sym gone))
    absent false same e = refl

    by_server :
        (o : Option Server)
        → lookup id m ≡ o
        → get_server k (on_known id f m o)
          ≡ (if text_eq id k then f (get_server k m) else get_server k m)
    by_server none e = absent (text_eq id k) (text_eq→eq id k) e
    by_server (some s) e =
        ap (λ x. get_server k (insert id (f x) m)) (sym (ap (server_or_new id) e))
        ∙ inserted-get id k f m

act-get :
    (b : Base64) (now id k : Text) (a : Act) (m : Map Server)
    → is_empty k ≡ false
    → get_server k (call_by b now id a m)
      ≡ (if text_eq (target id a) k then act b now a (get_server k m) else get_server k m)
unfolding enqueue_to poll_at complete_at act
act-get b now id k (enqueues r input) m h = on_server-get (trim id) k (enqueue b now r input) m h
act-get b now id k (polls n i c) m h = on_server-get (trim id) k (poll now n i c) m h
act-get b now id k (completes r p) m h =
    on_server-get (trim id) k (λ s. (complete b now r p s).0) m h
act-get b now id k (times_out r) m h =
    on_timer-get id k (time_out r) m (unfold time_out includes in refl)
act-get b now id k (ends_poll n) m h = on_timer-get id k (end_poll n) m (unfold end_poll in refl)

run-get :
    (b : Base64) (k : Text) (cs : List Call) (m : Map Server)
    → is_empty k ≡ false
    → get_server k (run_calls b cs m) ≡ run_acts b (acts_of k cs) (get_server k m)
unfolding run_calls acts_of run_acts
run-get b k [] m h = refl
run-get b k (c ∷ cs) m h =
    run-get b k cs (call_by b c.now c.server_id c.what m) h
    ∙ (ap (run_acts b (acts_of k cs)) (act-get b c.now c.server_id k c.what m h)
        ∙ by_test (text_eq (target c.server_id c.what) k))
  where
    by_test :
        (t : Bool)
        → run_acts b
            (acts_of k cs)
            (if t then act b c.now c.what (get_server k m) else get_server k m)
          ≡ run_acts b (if t then (c.now, c.what) ∷ acts_of k cs else acts_of k cs) (get_server k m)
    by_test true = unfold run_acts in refl
    by_test false = refl

-- Each server of the relay is a queue of its own: after any calls and timers it is as the acts for it
-- alone leave a new server.
pub run_calls-apart :
    (b : Base64) (k : Text) (cs : List Call)
    → is_empty k ≡ false
    → get_server k (run_calls b cs []) ≡ run_acts b (acts_of k cs) (new_server k)
unfolding lookup
run_calls-apart b k cs h = run-get b k cs [] h
