-- ===== src/Relay/Balance/Moves.antt =====
-- Requests of a server of the relay, src/pillar/server.js, that move from those that wait to those in
-- flight: how often an id stands there, and the timers.
use ender.Prelude.{
  ℕ, ◌+◌, ◌≤◌, Bool, false, List, [], ◌∷◌, Option, some, Text, text_eq, text_eq_iff, take, count_of,
  All, if-holds, Map, insert, lookup, remove, ◌≡◌, refl, sym, ap, ◌∙◌, arith,
}
use ender.Relay.{Request, Wire}
use ender.Relay.Queue.{
  Server, Waiter, Act, enqueues, polled, poll, take_requests, flush_loop, serve_waiter, polled_by,
  with_poll, send, batch_size, deliver, delivered, is_nil,
}
use ender.Relay.Balance.{copies, ids, keys, settled, settled-append, copies-split, copies-deliver}

-- How often a request waits to be polled, or to be answered.
abbrev pub open_count : Text → Server → ℕ
open_count k s = copies k (ids s.pending) + copies k (keys s.inflight)

abbrev pub total : Text → Server → ℕ
total k s = open_count k s + settled k s.out

abbrev pub is_enqueue : Text → Text × Act → Bool
is_enqueue k (now, enqueues id input) = text_eq k id
is_enqueue k (now, a) = false

abbrev pub enqueued : Text → List (Text × Act) → ℕ
enqueued k acts = count_of (is_enqueue k) acts

abbrev pub IsKeyed : Map Request → Type 0
IsKeyed m = All (λ (e : Text × Request). (e.1).id ≡ e.0) m

-- The timers that are set are those of the open requests.
pub record Balanced (s : Server) : Type 0 where
  pub timed : (k : Text) → copies k s.timers ≡ open_count k s
  pub keyed : IsKeyed s.inflight

-- Requests have moved from one place to the other only.
pub record Moved (s s' : Server) : Type 0 where
  pub held : (k : Text) → open_count k s' ≡ open_count k s
  pub set : s'.timers ≡ s.timers
  pub sent : (k : Text) → settled k s'.out ≡ settled k s.out
  pub keyed : IsKeyed s.inflight → IsKeyed s'.inflight

pub insert-IsKeyed : (r : Request) (m : Map Request) → IsKeyed m → IsKeyed (insert r.id r m)
unfolding insert
insert-IsKeyed r [] h = (refl, tt)
insert-IsKeyed r ((j, x) ∷ m) (p, h) =
    if-holds IsKeyed (text_eq j r.id) ((j, r) ∷ m) ((j, x) ∷ insert r.id r m)
      (λ e. (ground (arith, text_eq_iff j (r.id)), h)) (λ _. (p, insert-IsKeyed r m h))

pub deliver-IsKeyed :
    (now : Text) (rs : List Request) (m : Map Request) → IsKeyed m → IsKeyed (deliver now rs m)
unfolding deliver
deliver-IsKeyed now [] m h = h
deliver-IsKeyed now (r ∷ rs) m h =
    deliver-IsKeyed now rs (insert r.id (delivered now r) m) (insert-IsKeyed (delivered now r) m h)

pub remove-IsKeyed : (k : Text) (m : Map Request) → IsKeyed m → IsKeyed (remove k m)
unfolding remove
remove-IsKeyed k [] h = tt
remove-IsKeyed k ((j, r) ∷ m) (p, h) =
    if-holds IsKeyed (text_eq j k) (remove k m) ((j, r) ∷ remove k m) (λ _. remove-IsKeyed k m h)
      (λ _. (p, remove-IsKeyed k m h))

pub lookup-id :
    (k : Text) (r : Request) (m : Map Request) → IsKeyed m → lookup k m ≡ some r → r.id ≡ k
unfolding lookup
lookup-id k r [] h e = cc
lookup-id k r ((j, x) ∷ m) (p, h) e = ground (arith, text_eq_iff j k, lookup-id k r m h)

pub take-Moved :
    (now : Text) (c : Option ℕ) (s : Server)
    → ((k : Text) → open_count k s ≤ 1)
    → Moved s ((take_requests now c s).0)
unfolding take_requests
take-Moved now c s one = record {
  held = λ k. omega (
    arith,
    copies-split k (batch_size c) s.pending,
    copies-deliver now k (take (batch_size c) s.pending) s.inflight
        (λ j. omega (arith, one j, copies-split j (batch_size c) s.pending)),
  );
  set = refl;
  sent = λ k. refl;
  keyed = deliver-IsKeyed now (take (batch_size c) s.pending) s.inflight;
}

pub sent-Moved :
    (n : ℕ) (ws : List Wire) {s x : Server} → Moved s x → Moved s (send (polled n ws) x)
unfolding settled
sent-Moved n ws {s} {x} m = record {
  held = m.held;
  set = m.set;
  sent = λ k. omega (arith, settled-append k x.out (polled n ws ∷ []), m.sent k);
  keyed = m.keyed;
}

pub waiting-Moved :
    (ws : List Waiter) {s x : Server} → Moved s x → Moved s (record x { waiters = ws })
waiting-Moved ws m = record { held = m.held; set = m.set; sent = m.sent; keyed = m.keyed }

pub then-Moved : {s x y : Server} → Moved s x → Moved x y → Moved s y
then-Moved a b = record {
  held = λ k. b.held k ∙ a.held k;
  set = b.set ∙ a.set;
  sent = λ k. b.sent k ∙ a.sent k;
  keyed = λ h. b.keyed (a.keyed h);
}

pub same-Moved : (s : Server) → Moved s s
same-Moved s = record { held = λ k. refl; set = refl; sent = λ k. refl; keyed = λ h. h }

pub serve-Moved :
    (now : Text) (w : Waiter) (s : Server)
    → ((k : Text) → open_count k s ≤ 1)
    → Moved s (serve_waiter now w s)
serve-Moved now w s one =
    sent-Moved w.number ((take_requests now w.capacity s).1) (take-Moved now w.capacity s one)

pub flush-Moved :
    (now : Text) (ws : List Waiter) (s : Server)
    → ((k : Text) → open_count k s ≤ 1)
    → Moved s (flush_loop now ws s)
unfolding flush_loop
flush-Moved now [] s one = waiting-Moved [] (same-Moved s)
flush-Moved now (w ∷ ws) s one =
    let served = serve-Moved now w s one in
    if-holds (Moved s) (is_nil s.pending) (record s { waiters = w ∷ ws })
      (flush_loop now ws (serve_waiter now w s)) (λ _. waiting-Moved (w ∷ ws) (same-Moved s))
      (λ _.
        then-Moved served
          (flush-Moved now ws (serve_waiter now w s) (λ k. omega (arith, served.held k, one k))))

pub polled_by-Moved :
    (n : ℕ) (c : Option ℕ) (s : Server) (r : Server × List Wire)
    → Moved s (r.0)
    → Moved s (polled_by n c r)
polled_by-Moved n c s (x, []) m = waiting-Moved _ m
polled_by-Moved n c s (x, w ∷ ws) m = sent-Moved n (w ∷ ws) m

pub poll-Moved :
    (now : Text) (n : ℕ) (i : Option Text) (c : Option ℕ) (s : Server)
    → ((k : Text) → open_count k s ≤ 1)
    → Moved s (poll now n i c s)
unfolding poll
poll-Moved now n i c s one = polled_by-Moved n c s (take_requests now c (with_poll now i s)) (
    let m = take-Moved now c (with_poll now i s) one in
    record { held = m.held; set = m.set; sent = m.sent; keyed = m.keyed })

pub unchanged-Balanced : {s x : Server} → Moved s x → Balanced s → Balanced x
unchanged-Balanced {s} {x} m b = record {
  timed = λ k. ap (copies k) m.set ∙ (b.timed k ∙ sym (m.held k));
  keyed = m.keyed b.keyed;
}
