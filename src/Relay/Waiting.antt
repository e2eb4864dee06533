-- ===== src/Relay/Waiting.antt =====
-- The polls of a server of the relay, src/pillar/server.js: none waits while a request does, and a
-- poll gets at most ten requests.
use ender.Prelude.{
  ℕ, zero, suc, ◌≤◌, Bool, true, not, List, [], ◌∷◌, ◌++◌, map, Option, none, some, Text, includes,
  lookup, remove, take, drop, keep, length, length-take-le, All, if-holds, ◌⊎◌, inl, inr, ◌≡◌, refl,
  ap, arith,
}
use ender.Relay.{Base64, Request, Wire, Response, to_wire, answer_of}
use ender.Relay.Queue.{
  Server, Waiter, Act, Event, enqueues, polls, completes, times_out, ends_poll, polled, answered,
  timed_out, act, run_acts, enqueue, poll, complete, completed, time_out, end_poll, take_requests,
  flush_loop, serve_waiter, polled_by, with_poll, send, batch_size, is_not, is_nil, is_poll,
  has_poll, new_server,
}

abbrev pub IsSmall : Event → Type 0
IsSmall (polled n ws) = length ws ≤ 10
IsSmall (answered id a) = Unit
IsSmall (timed_out id) = Unit

pub record IsServed (s : Server) : Type 0 where
  pub none_waits : (s.pending ≡ []) ⊎ (s.waiters ≡ [])
  pub small : All IsSmall s.out

batch_size-bound : (c : Option ℕ) → (1 ≤ batch_size c) × (batch_size c ≤ 10)
unfolding batch_size
batch_size-bound none = (omega arith, omega arith)
batch_size-bound (some n) = ground arith

length-map {ℓ κ} :
    {A : Type ℓ} {B : Type κ} (f : A → B) (xs : List A) → length (map f xs) ≡ length xs
length-map f [] = refl
length-map f (x ∷ xs) = ap suc (length-map f xs)

All-append {ℓ κ} :
    {A : Type ℓ} (P : A → Type κ) (xs ys : List A) → All P xs → All P ys → All P (xs ++ ys)
All-append P [] ys h k = k
All-append P (x ∷ xs) ys (p, h) k = (p, All-append P xs ys h k)

take_small : (now : Text) (c : Option ℕ) (s : Server) → length ((take_requests now c s).1) ≤ 10
unfolding take_requests
take_small now c s = omega (
  arith,
  length-map to_wire (take (batch_size c) s.pending),
  length-take-le (batch_size c) s.pending,
  (batch_size-bound c).1,
)

sent-IsSmall :
    (n : ℕ) (ws : List Wire) (s : Server)
    → length ws ≤ 10
    → All IsSmall s.out
    → All IsSmall (s.out ++ polled n ws ∷ [])
sent-IsSmall n ws s h o = All-append IsSmall s.out (polled n ws ∷ []) o (h, tt)

-- The loop stops when no request or no poll is left.
flush-IsServed :
    (now : Text) (ws : List Waiter) (s : Server)
    → All IsSmall s.out
    → IsServed (flush_loop now ws s)
unfolding flush_loop take_requests
flush-IsServed now [] s o = record { none_waits = inr refl; small = o }
flush-IsServed now (w ∷ ws) s o =
    if-holds IsServed (is_nil s.pending) (record s { waiters = w ∷ ws })
      (flush_loop now ws (serve_waiter now w s))
      (λ h. record { none_waits = inl (nil_of s.pending h); small = o })
      (λ _. flush-IsServed now ws (serve_waiter now w s) (
        sent-IsSmall w.number ((take_requests now w.capacity s).1) s (take_small now w.capacity s)
          o))
  where
    nil_of : (xs : List Request) → is_nil xs ≡ true → xs ≡ []
    nil_of [] h = refl
    nil_of (x ∷ xs) h = cc

-- A poll that got nothing found no request.
nothing_taken :
    (now : Text) (c : Option ℕ) (s : Server)
    → (take_requests now c s).1 ≡ []
    → ((take_requests now c s).0).pending ≡ []
unfolding take_requests
nothing_taken now c s = none_left (batch_size c) s.pending ((batch_size-bound c).0)
  where
    none_left : (n : ℕ) (rs : List Request) → 1 ≤ n → map to_wire (take n rs) ≡ [] → drop n rs ≡ []
    none_left zero rs h e = ground arith
    none_left (suc n) [] h e = refl
    none_left (suc n) (r ∷ rs) h e = cc

drop-nil : (n : ℕ) (rs : List Request) → rs ≡ [] → drop n rs ≡ []
drop-nil zero rs h = h
drop-nil (suc n) [] h = refl
drop-nil (suc n) (r ∷ rs) h = cc

keep-nil {ℓ} : {A : Type ℓ} (p : A → Bool) (xs : List A) → xs ≡ [] → keep p xs ≡ []
unfolding keep
keep-nil p [] h = refl
keep-nil p (x ∷ xs) h = cc

taken_none_waits :
    (now : Text) (c : Option ℕ) (s : Server)
    → (s.pending ≡ []) ⊎ (s.waiters ≡ [])
    → let x = (take_requests now c s).0 in (x.pending ≡ []) ⊎ (x.waiters ≡ [])
unfolding take_requests
taken_none_waits now c s (inl h) = inl (drop-nil (batch_size c) s.pending h)
taken_none_waits now c s (inr h) = inr h

polled_by-IsServed :
    (n : ℕ) (c : Option ℕ) (r : Server × List Wire)
    → ((r.0).pending ≡ []) ⊎ ((r.0).waiters ≡ [])
    → (r.1 ≡ [] → (r.0).pending ≡ [])
    → length (r.1) ≤ 10
    → All IsSmall ((r.0).out)
    → IsServed (polled_by n c r)
polled_by-IsServed n c (x, []) h e l o = record { none_waits = inl (e refl); small = o }
polled_by-IsServed n c (x, w ∷ ws) h e l o = record {
  none_waits = h;
  small = sent-IsSmall n (w ∷ ws) x l o;
}

taken_out : (now : Text) (c : Option ℕ) (s : Server) → ((take_requests now c s).0).out ≡ s.out
unfolding take_requests
taken_out now c s = refl

poll-IsServed :
    (now : Text) (n : ℕ) (i : Option Text) (c : Option ℕ) (s : Server)
    → IsServed s
    → IsServed (poll now n i c s)
unfolding poll take_requests
poll-IsServed now n i c s h =
    let x = with_poll now i s in
    polled_by-IsServed n c (take_requests now c x) (taken_none_waits now c x h.none_waits)
      (nothing_taken now c x) (take_small now c x) h.small

completed-IsServed :
    (b : Base64) (now id : Text) (p : Response) (s : Server) (o : Option Request)
    → IsServed s
    → IsServed ((completed b now id p s o).0)
completed-IsServed b now id p s none h = h
completed-IsServed b now id p s (some r) h = record {
  none_waits = h.none_waits;
  small = All-append IsSmall s.out (answered r.id (answer_of b p) ∷ []) h.small (tt, tt);
}

time_out-IsServed : (id : Text) (s : Server) → IsServed s → IsServed (time_out id s)
unfolding time_out
time_out-IsServed id s h =
    if-holds IsServed (includes s.timers id)
      (send (timed_out id) (record s {
        inflight = remove id s.inflight;
        pending = keep (λ r. is_not id (r.id)) s.pending;
        timers = keep (is_not id) s.timers;
      }))
      s
      (λ _. record {
        none_waits = elim h.none_waits [
          | inl e ↦ inl (keep-nil (λ r. is_not id (r.id)) s.pending e)
          | inr e ↦ inr e
        ];
        small = All-append IsSmall s.out (timed_out id ∷ []) h.small (tt, tt);
      })
      (λ _. h)

end_poll-IsServed : (n : ℕ) (s : Server) → IsServed s → IsServed (end_poll n s)
unfolding end_poll
end_poll-IsServed n s h =
    let rest = keep (λ w. not (is_poll n w)) s.waiters in
    if-holds IsServed (has_poll n s.waiters) (send (polled n []) (record s { waiters = rest })) s
      (λ _. record {
        none_waits = elim h.none_waits [
          | inl e ↦ inl e
          | inr e ↦ inr (keep-nil (λ w. not (is_poll n w)) s.waiters e)
        ];
        small = sent-IsSmall n [] s (omega arith) h.small;
      })
      (λ _. h)

act-IsServed :
    (b : Base64) (now : Text) (a : Act) (s : Server) → IsServed s → IsServed (act b now a s)
unfolding act enqueue complete
act-IsServed b now (enqueues id input) s h = flush-IsServed now s.waiters _ h.small
act-IsServed b now (polls n i c) s h = poll-IsServed now n i c s h
act-IsServed b now (completes id p) s h = completed-IsServed b now id p s (lookup id s.inflight) h
act-IsServed b now (times_out id) s h = time_out-IsServed id s h
act-IsServed b now (ends_poll n) s h = end_poll-IsServed n s h

-- After any acts on a server whose polls are served, no poll waits while a request does, and no poll
-- has got more than ten requests.
pub run_acts-IsServed :
    (b : Base64) (acts : List (Text × Act)) (s : Server) → IsServed s → IsServed (run_acts b acts s)
unfolding run_acts
run_acts-IsServed b [] s h = h
run_acts-IsServed b ((now, a) ∷ rest) s h =
    run_acts-IsServed b rest (act b now a s) (act-IsServed b now a s h)

pub new-IsServed : (id : Text) → IsServed (new_server id)
new-IsServed id = record { none_waits = inl refl; small = tt }
