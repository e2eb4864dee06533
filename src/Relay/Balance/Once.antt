-- ===== src/Relay/Balance/Once.antt =====
-- Each request to a server of the relay, src/pillar/server.js, is in one place and is settled once.
use ender.Prelude.{
  ℕ, ◌+◌, ◌≤◌, false, not, List, [], ◌∷◌, ◌++◌, Option, none, some, Text, text_eq, text_eq_iff,
  includes, keep, count_of, if-holds, lookup, remove, ◌≡◌, refl, arith, if◌then◌else◌,
}
use ender.Relay.{Base64, Request, Input, Response, new_request, answer_of}
use ender.Relay.Queue.{
  Server, Act, enqueues, polls, completes, times_out, ends_poll, polled, act, run_acts, enqueue,
  poll, complete, completed, answered, timed_out, time_out, end_poll, send, is_not, is_poll,
  has_poll, new_server,
}
use ender.Relay.Balance.{
  copies, keys, settled, settled-append, copies-append, copies-ids_append, copies-remove,
  copies-keep_not, copies-keep_others, copies-lookup, copies-includes,
}
use ender.Relay.Balance.Moves.{
  open_count, total, is_enqueue, enqueued, Balanced, Moved, remove-IsKeyed, lookup-id, sent-Moved,
  waiting-Moved, same-Moved, flush-Moved, poll-Moved, unchanged-Balanced,
}

abbrev one_if : Text → (Text × Act) → ℕ
one_if k e = if is_enqueue k e then 1 else 0

-- After an act the timers are still those of the open requests, and a request is one more only when
-- it was enqueued.
record Kept (e : Text × Act) (s x : Server) : Type 0 where
  balanced : Balanced x
  counted : (k : Text) → total k x ≡ total k s + one_if k e

unchanged-Kept :
    (e : Text × Act) (s x : Server)
    → ((k : Text) → is_enqueue k e ≡ false)
    → Balanced s
    → Moved s x
    → Kept e s x
unchanged-Kept e s x other b m = record {
  balanced = unchanged-Balanced m b;
  counted = λ k. ground (arith, m.held k, m.sent k, other k);
}

abbrev joined : Base64 → Text → Text → Input → Server → Server
joined b now id input s = record s {
  pending = s.pending ++ new_request b now id input ∷ [];
  timers = s.timers ++ id ∷ [];
}

joined_open :
    (b : Base64) (now id : Text) (input : Input) (s : Server) (k : Text)
    → open_count k (joined b now id input s) ≡ open_count k s + (if text_eq k id then 1 else 0)
unfolding new_request count_of
joined_open b now id input s k =
    ground (arith, copies-ids_append k s.pending (new_request b now id input ∷ []))

joined-Balanced :
    (b : Base64) (now id : Text) (input : Input) (s : Server)
    → Balanced s
    → Balanced (joined b now id input s)
unfolding count_of
joined-Balanced b now id input s h = record {
  timed = λ k.
      ground (arith, copies-append k s.timers (id ∷ []), joined_open b now id input s k, h.timed k);
  keyed = h.keyed;
}

enqueue-Kept :
    (b : Base64) (now id : Text) (input : Input) (s : Server)
    → Balanced s
    → ((k : Text) → total k s + one_if k (now, enqueues id input) ≤ 1)
    → Kept (now, enqueues id input) s (enqueue b now id input s)
unfolding enqueue
enqueue-Kept b now id input s h one =
    let x : Server = joined b now id input s in
    let m =
      flush-Moved now x.waiters x (λ k. omega (arith, joined_open b now id input s k, one k)) in
    record {
      balanced = unchanged-Balanced m (joined-Balanced b now id input s h);
      counted = λ k. omega (arith, m.held k, m.sent k, joined_open b now id input s k);
    }

completed-Kept :
    (b : Base64) (now id : Text) (p : Response) (s : Server) (o : Option Request)
    → Balanced s
    → ((k : Text) → total k s ≤ 1)
    → lookup id s.inflight ≡ o
    → Kept (now, completes id p) s ((completed b now id p s o).0)
unfolding settled
completed-Kept b now id p s none h one e =
    unchanged-Kept (now, completes id p) s s (λ k. refl) h (same-Moved s)
completed-Kept b now id p s (some r) h one e = record {
  balanced = record {
    timed = λ k. ground (
      arith,
      copies-keep_not k (r.id) s.timers,
      copies-remove k (r.id) s.inflight,
      h.timed k,
      one k,
      there,
      text_eq_iff k (r.id),
    );
    keyed = remove-IsKeyed (r.id) s.inflight h.keyed;
  };
  counted = λ k. ground (
    arith,
    settled-append k s.out (answered r.id (answer_of b p) ∷ []),
    copies-remove k (r.id) s.inflight,
    one k,
    there,
    text_eq_iff k (r.id),
  );
}
  where
    there : 1 ≤ copies (r.id) (keys s.inflight)
    there = rw (lookup-id id r s.inflight h.keyed e) (copies-lookup id r s.inflight e)

timed_out-Kept :
    (now id : Text) (s : Server)
    → Balanced s
    → ((k : Text) → total k s ≤ 1)
    → Kept (now, times_out id) s (time_out id s)
unfolding time_out
timed_out-Kept now id s h one =
    if-holds (Kept (now, times_out id) s) (includes s.timers id)
      (send (timed_out id) (record s {
        inflight = remove id s.inflight;
        pending = keep (λ r. is_not id (r.id)) s.pending;
        timers = keep (is_not id) s.timers;
      }))
      s
      (λ armed. record {
        balanced = record {
          timed = λ k. ground (
            arith,
            copies-keep_not k id s.timers,
            copies-keep_others k id s.pending,
            copies-remove k id s.inflight,
            h.timed k,
          );
          keyed = remove-IsKeyed id s.inflight h.keyed;
        };
        counted = λ k.
            unfold settled in
            ground (
              arith,
              settled-append k s.out (timed_out id ∷ []),
              copies-keep_others k id s.pending,
              copies-remove k id s.inflight,
              copies-includes id s.timers armed,
              h.timed id,
              one k,
              text_eq_iff k id,
            );
      })
      (λ _. unchanged-Kept (now, times_out id) s s (λ k. refl) h (same-Moved s))

end_poll-Kept :
    (now : Text) (n : ℕ) (s : Server) → Balanced s → Kept (now, ends_poll n) s (end_poll n s)
unfolding end_poll
end_poll-Kept now n s h =
    unchanged-Kept (now, ends_poll n) s (end_poll n s) (λ k. refl) h
      (if-holds (Moved s) (has_poll n s.waiters)
        (send (polled n []) (record s { waiters = keep (λ w. not (is_poll n w)) s.waiters })) s
        (λ _.
          sent-Moved n [] (waiting-Moved (keep (λ w. not (is_poll n w)) s.waiters) (same-Moved s)))
        (λ _. same-Moved s))

act-Kept :
    (b : Base64) (now : Text) (a : Act) (s : Server)
    → Balanced s
    → ((k : Text) → total k s + one_if k (now, a) ≤ 1)
    → Kept (now, a) s (act b now a s)
unfolding act complete
act-Kept b now (enqueues id input) s h one = enqueue-Kept b now id input s h one
act-Kept b now (polls n i c) s h one =
    unchanged-Kept (now, polls n i c) s (poll now n i c s) (λ k. refl) h
      (poll-Moved now n i c s (λ k. omega (arith, one k)))
act-Kept b now (completes id p) s h one =
    completed-Kept b now id p s (lookup id s.inflight) h (λ k. omega (arith, one k)) refl
act-Kept b now (times_out id) s h one = timed_out-Kept now id s h (λ k. omega (arith, one k))
act-Kept b now (ends_poll n) s h one = end_poll-Kept now n s h

run-Kept :
    (b : Base64) (acts : List (Text × Act)) (s : Server)
    → Balanced s
    → ((k : Text) → total k s + enqueued k acts ≤ 1)
    → Balanced (run_acts b acts s)
      × ((k : Text) → total k (run_acts b acts s) ≡ total k s + enqueued k acts)
unfolding run_acts count_of
run-Kept b [] s h one = (h, λ k. omega arith)
run-Kept b ((now, a) ∷ rest) s h one =
    let kept = act-Kept b now a s h (λ k. omega (arith, one k)) in
    let x = act b now a s in
    let (g, e) = run-Kept b rest x kept.balanced (λ k. omega (arith, one k, kept.counted k)) in
    (g, λ k. omega (arith, e k, kept.counted k))

-- When each id is drawn once, then after any acts on a new server every request that was enqueued is
-- in one place: it waits for a poll, or for its answer, or its promise was settled, once. A timer is
-- set for exactly the requests that wait.
pub each_request_settled_once :
    (b : Base64) (id : Text) (acts : List (Text × Act))
    → ((k : Text) → enqueued k acts ≤ 1)
    → (k : Text)
    → let s = run_acts b acts (new_server id) in
      (open_count k s + settled k s.out ≡ enqueued k acts) × (copies k s.timers ≡ open_count k s)
unfolding settled count_of
each_request_settled_once b id acts one k =
    let (g, e) =
      run-Kept b acts (new_server id) (record { timed = λ k. refl; keyed = tt })
        (λ k. omega (arith, one k)) in
    (omega (arith, e k), g.timed k)
