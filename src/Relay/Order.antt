-- ===== src/Relay/Order.antt =====
-- A server of the relay, src/pillar/server.js, gets its requests in the order of the clients' calls.
use ender.Prelude.{
  append_assoc, append-nil, ℕ, zero, suc, Bool, true, false, not, ◌&&◌, List, [], ◌∷◌, ◌++◌, map,
  Option, none, some, Text, take, drop, keep, lookup, if-holds, ◌≡◌, refl, sym, ap, ◌∙◌, arith,
}
use mathlib.Core.Path.{subst}
use ender.Relay.Carried.{Carries, new_request-Carries}
use ender.Relay.{Base64, Request, Wire, Input, Response, to_wire, new_request, answer_of}
use ender.Relay.Queue.{
  Server, Waiter, Act, Event, enqueues, polls, completes, times_out, ends_poll, polled, answered,
  act, run_acts, enqueue, poll, complete, completed, end_poll, take_requests, flush_loop,
  serve_waiter, polled_by, with_poll, send, batch_size, is_nil, is_poll, has_poll, new_server,
}

abbrev pub event_wires : Event → List Wire
event_wires (polled n ws) = ws
event_wires e = []

-- What the polls have got, in their order.
unfoldable pub sent_wires : List Event → List Wire
sent_wires [] = []
sent_wires (e ∷ es) = event_wires e ++ sent_wires es

-- All that a server got and will get.
abbrev pub queue_of : Server → List Wire
queue_of s = sent_wires s.out ++ map to_wire s.pending

abbrev act_wires : Base64 → Text × Act → List Wire
act_wires b (now, enqueues id input) = to_wire (new_request b now id input) ∷ []
act_wires b (now, a) = []

unfoldable pub enqueued_wires : Base64 → List (Text × Act) → List Wire
enqueued_wires b [] = []
enqueued_wires b (e ∷ es) = act_wires b e ++ enqueued_wires b es

abbrev is_in_time : Act → Bool
is_in_time (times_out id) = false
is_in_time a = true

-- No request times out.
abbrev pub all_in_time : List (Text × Act) → Bool
all_in_time [] = true
all_in_time ((now, a) ∷ rest) = is_in_time a && all_in_time rest

sent_wires-append : (xs ys : List Event) → sent_wires (xs ++ ys) ≡ sent_wires xs ++ sent_wires ys
unfolding sent_wires
sent_wires-append [] ys = refl
sent_wires-append (x ∷ xs) ys =
    ap (λ zs. event_wires x ++ zs) (sent_wires-append xs ys)
    ∙ sym (append_assoc (event_wires x) (sent_wires xs) (sent_wires ys))

sent_one :
    (xs : List Event) (e : Event) → sent_wires (xs ++ e ∷ []) ≡ sent_wires xs ++ event_wires e
unfolding sent_wires
sent_one xs e =
    sent_wires-append xs (e ∷ []) ∙ ap (λ zs. sent_wires xs ++ zs) (append-nil (event_wires e))

map-append {ℓ κ} :
    {A : Type ℓ} {B : Type κ} (f : A → B) (xs ys : List A) → map f (xs ++ ys) ≡ map f xs ++ map f ys
map-append f [] ys = refl
map-append f (x ∷ xs) ys = ap (λ zs. f x ∷ zs) (map-append f xs ys)

map-split :
    (n : ℕ) (rs : List Request)
    → map to_wire (take n rs) ++ map to_wire (drop n rs) ≡ map to_wire rs
map-split zero rs = refl
map-split (suc n) [] = refl
map-split (suc n) (r ∷ rs) = ap (λ zs. to_wire r ∷ zs) (map-split n rs)

-- Requests that are taken and sent stay in the queue's order.
taken_queue :
    (now : Text) (n : ℕ) (c : Option ℕ) (s : Server)
    → queue_of (send (polled n ((take_requests now c s).1)) ((take_requests now c s).0))
      ≡ queue_of s
unfolding take_requests
taken_queue now n c s =
    let rs = s.pending in
    let k = batch_size c in
    ap (λ zs. zs ++ map to_wire (drop k rs)) (sent_one s.out (polled n (map to_wire (take k rs))))
    ∙ (append_assoc (sent_wires s.out) (map to_wire (take k rs)) (map to_wire (drop k rs))
        ∙ ap (λ zs. sent_wires s.out ++ zs) (map-split k rs))

flush_queue :
    (now : Text) (ws : List Waiter) (s : Server) → queue_of (flush_loop now ws s) ≡ queue_of s
unfolding flush_loop
flush_queue now [] s = refl
flush_queue now (w ∷ ws) s =
    if-holds (λ x. queue_of x ≡ queue_of s) (is_nil s.pending) (record s { waiters = w ∷ ws })
      (flush_loop now ws (serve_waiter now w s)) (λ _. refl)
      (λ _. flush_queue now ws (serve_waiter now w s) ∙ taken_queue now w.number w.capacity s)

polled_queue :
    (n : ℕ) (c : Option ℕ) (r : Server × List Wire)
    → queue_of (polled_by n c r) ≡ queue_of (send (polled n (r.1)) (r.0))
polled_queue n c (x, []) =
    ap (λ zs. zs ++ map to_wire x.pending)
      (sym (append-nil (sent_wires x.out)) ∙ sym (sent_one x.out (polled n [])))
polled_queue n c (x, w ∷ ws) = refl

poll_queue :
    (now : Text) (n : ℕ) (i : Option Text) (c : Option ℕ) (s : Server)
    → queue_of (poll now n i c s) ≡ queue_of s
unfolding poll
poll_queue now n i c s =
    polled_queue n c (take_requests now c (with_poll now i s))
    ∙ taken_queue now n c (with_poll now i s)

-- What a server sends that is no poll leaves the queue as it is.
other_queue : (e : Event) (s : Server) → event_wires e ≡ [] → queue_of (send e s) ≡ queue_of s
other_queue e s h =
    ap (λ zs. zs ++ map to_wire s.pending)
      (sent_one s.out e ∙ (ap (λ zs. sent_wires s.out ++ zs) h ∙ append-nil (sent_wires s.out)))

completed_queue :
    (b : Base64) (now id : Text) (p : Response) (s : Server) (o : Option Request)
    → queue_of ((completed b now id p s o).0) ≡ queue_of s
completed_queue b now id p s none = refl
completed_queue b now id p s (some r) = other_queue (answered r.id (answer_of b p)) s refl

enqueue_queue :
    (b : Base64) (now id : Text) (input : Input) (s : Server)
    → queue_of (enqueue b now id input s) ≡ queue_of s ++ to_wire (new_request b now id input) ∷ []
unfolding enqueue
enqueue_queue b now id input s =
    flush_queue now s.waiters _
    ∙ (ap (λ zs. sent_wires s.out ++ zs)
          (map-append to_wire s.pending (new_request b now id input ∷ []))
        ∙ sym (
            append_assoc (sent_wires s.out) (map to_wire s.pending)
              (to_wire (new_request b now id input) ∷ [])))

end_poll_queue : (n : ℕ) (s : Server) → queue_of (end_poll n s) ≡ queue_of s
unfolding end_poll
end_poll_queue n s =
    let rest = keep (λ w. not (is_poll n w)) s.waiters in
    if-holds (λ x. queue_of x ≡ queue_of s) (has_poll n s.waiters)
      (send (polled n []) (record s { waiters = rest })) s (λ _. other_queue (polled n []) s refl)
      (λ _. refl)

act_queue :
    (b : Base64) (now : Text) (a : Act) (s : Server)
    → is_in_time a ≡ true
    → queue_of (act b now a s) ≡ queue_of s ++ act_wires b (now, a)
unfolding act complete
act_queue b now (enqueues id input) s h = enqueue_queue b now id input s
act_queue b now (polls n i c) s h = poll_queue now n i c s ∙ sym (append-nil (queue_of s))
act_queue b now (completes id p) s h =
    completed_queue b now id p s (lookup id s.inflight) ∙ sym (append-nil (queue_of s))
act_queue b now (times_out id) s h = cc
act_queue b now (ends_poll n) s h = end_poll_queue n s ∙ sym (append-nil (queue_of s))

run_acts_queue :
    (b : Base64) (acts : List (Text × Act)) (s : Server)
    → all_in_time acts ≡ true
    → queue_of (run_acts b acts s) ≡ queue_of s ++ enqueued_wires b acts
unfolding run_acts enqueued_wires
run_acts_queue b [] s h = sym (append-nil (queue_of s))
run_acts_queue b ((now, a) ∷ rest) s h =
    run_acts_queue b rest (act b now a s) (ground arith)
    ∙ (ap (λ zs. zs ++ enqueued_wires b rest) (act_queue b now a s (ground arith))
        ∙ append_assoc (queue_of s) (act_wires b (now, a)) (enqueued_wires b rest))

-- The calls of the clients, with the ids of their requests.
unfoldable pub calls_of : List (Text × Act) → List (Text × Input)
calls_of [] = []
calls_of ((now, enqueues id input) ∷ rest) = (id, input) ∷ calls_of rest
calls_of ((now, a) ∷ rest) = calls_of rest

-- One wire for each call, in the same order.
abbrev pub AreCarried : Base64 → List (Text × Input) → List Wire → Type 0
AreCarried b [] [] = Unit
AreCarried b ((id, input) ∷ cs) (w ∷ ws) = Carries b id input w × AreCarried b cs ws
AreCarried b cs ws = ⊥

enqueued-AreCarried :
    (b : Base64) (acts : List (Text × Act)) → AreCarried b (calls_of acts) (enqueued_wires b acts)
unfolding calls_of enqueued_wires
enqueued-AreCarried b [] = tt
enqueued-AreCarried b ((now, enqueues id input) ∷ rest) =
    (new_request-Carries b now id input, enqueued-AreCarried b rest)
enqueued-AreCarried b ((now, polls n i c) ∷ rest) = enqueued-AreCarried b rest
enqueued-AreCarried b ((now, completes id p) ∷ rest) = enqueued-AreCarried b rest
enqueued-AreCarried b ((now, times_out id) ∷ rest) = enqueued-AreCarried b rest
enqueued-AreCarried b ((now, ends_poll n) ∷ rest) = enqueued-AreCarried b rest

-- While no request times out, a server gets its requests in the order of the clients' calls: what its
-- polls have got, and then what still waits, is one wire for each call, with the id of the call, its
-- method, its path and its body in base64. It has the call's headers, by their names in lower case
-- and each with its last value, but for `host`, `content-length` and those of one hop.
pub run-is_fifo :
    (b : Base64) (id : Text) (acts : List (Text × Act))
    → all_in_time acts ≡ true
    → let s = run_acts b acts (new_server id) in
      AreCarried b (calls_of acts) (sent_wires s.out ++ map to_wire s.pending)
unfolding sent_wires
run-is_fifo b id acts h =
    subst (AreCarried b (calls_of acts)) (sym (run_acts_queue b acts (new_server id) h))
      (enqueued-AreCarried b acts)
