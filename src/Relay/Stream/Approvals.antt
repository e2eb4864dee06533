-- ===== src/Relay/Stream/Approvals.antt =====
-- A stream of src/pillar/server.js announces each approval once.
use ender.Prelude.{
  ℕ, ◌+◌, ◌≤◌, Bool, true, false, not, ◌&&◌, ◌||◌, List, [], ◌∷◌, ◌++◌, Option, none, some, Text,
  lit, text_eq→eq, count_of, if-holds, ◌≡◌, refl, sym, ap, ◌∙◌, arith, if◌then◌else◌,
}
use ender.Json.{Json, null, boolean, number, string, array, object, natural, negative, fraction}
use ender.Json.Read.{member, is_truthy, or_truthy, same_value, array_items}
use ender.Relay.Stream.{
  Stream, SseEvent, status, log, approval_required, complete, error, write, has_seen, write_logs,
  take_logs, write_approvals, write_status, tell_first, tell_change, finish, is_terminal_status,
  tick, Poll, gone, answers, fails, end_stream, run_stream, new_stream, or_null,
}

-- Is this the announcement of the approval with this id?
abbrev pub announces : Text → SseEvent → Bool
announces k (approval_required a) = same_value (member (lit "id") a) (some (string k))
announces k e = false

abbrev pub announced : Text → Stream → ℕ
announced k s = count_of (announces k) s.out

record IsOnce (k : Text) (s : Stream) : Type 0 where
  once : announced k s ≤ 1
  new : has_seen (some (string k)) s.seen_approval_ids ≡ false → announced k s ≡ 0

count_of-append {ℓ} :
    {A : Type ℓ} (p : A → Bool) (xs : List A) (x : A)
    → count_of p (xs ++ x ∷ []) ≡ count_of p xs + (if p x then 1 else 0)
unfolding count_of
count_of-append p [] x = omega arith
count_of-append p (y ∷ xs) x = omega (arith, count_of-append p xs x)

has_seen-append :
    (id x : Option Json) (xs : List (Option Json))
    → has_seen id (xs ++ x ∷ []) ≡ (has_seen id xs || same_value x id)
unfolding has_seen
has_seen-append id x [] = ground arith
has_seen-append id x (y ∷ xs) = ground (arith, has_seen-append id x xs)

same_text :
    (v : Option Json) (k : Text) → same_value v (some (string k)) ≡ true → v ≡ some (string k)
unfolding same_value
same_text (some (string s)) k h = ap (λ t. some (string t)) (text_eq→eq s k h)
same_text none k h = cc h
same_text (some null) k h = cc h
same_text (some (boolean b)) k h = cc h
same_text (some (number (natural n))) k h = cc h
same_text (some (number (negative n))) k h = cc h
same_text (some (number (fraction n))) k h = cc h
same_text (some (array x)) k h = cc h
same_text (some (object x)) k h = cc h

write-IsOnce :
    (k : Text) (e : SseEvent) (s x : Stream)
    → announces k e ≡ false
    → x.out ≡ s.out ++ e ∷ []
    → x.seen_approval_ids ≡ s.seen_approval_ids
    → IsOnce k s
    → IsOnce k x
write-IsOnce k e s x a o n h = record {
  once = omega (arith, same, h.once);
  new = λ q. same ∙ h.new (ap (has_seen (some (string k))) (sym n) ∙ q);
}
  where
    same : announced k x ≡ announced k s
    same = ground (arith, ap (count_of (announces k)) o ∙ count_of-append (announces k) s.out e, a)

write_logs-IsOnce :
    (k : Text) (ls : List Json) (s : Stream) → IsOnce k s → IsOnce k (write_logs ls s)
unfolding write_logs
write_logs-IsOnce k [] s h = h
write_logs-IsOnce k (l ∷ ls) s h =
    write_logs-IsOnce k ls (write (log l) s) (write-IsOnce k (log l) s _ refl refl refl h)

announce-IsOnce :
    (k : Text) (a : Json) (s : Stream)
    → has_seen (member (lit "id") a) s.seen_approval_ids ≡ false
    → IsOnce k s
    → IsOnce k (
        write
          (approval_required a)
          (record s { seen_approval_ids = s.seen_approval_ids ++ member (lit "id") a ∷ [] }))
announce-IsOnce k a s n h = by_test (same_value (member (lit "id") a) (some (string k))) refl
  where
    tally :
        count_of (announces k) (s.out ++ approval_required a ∷ [])
        ≡ announced k s + (if same_value (member (lit "id") a) (some (string k)) then 1 else 0)
    tally = count_of-append (announces k) s.out (approval_required a)

    seen : has_seen (some (string k)) (s.seen_approval_ids ++ member (lit "id") a ∷ []) ≡ (
        has_seen (some (string k)) s.seen_approval_ids
        || same_value (member (lit "id") a) (some (string k)))
    seen = has_seen-append (some (string k)) (member (lit "id") a) s.seen_approval_ids

    by_test :
        (b : Bool)
        → same_value (member (lit "id") a) (some (string k)) ≡ b
        → IsOnce k (
            write
              (approval_required a)
              (record s { seen_approval_ids = s.seen_approval_ids ++ member (lit "id") a ∷ [] }))
    by_test true e =
        let first = h.new (
          ap (λ i. has_seen i s.seen_approval_ids) (sym (same_text (member (lit "id") a) k e))
          ∙ n) in
        record { once = ground (arith, first, tally, e); new = λ q. ground (arith, seen, q, e) }
    by_test false e = record {
      once = ground (arith, tally, e, h.once);
      new = λ q.
          let none_before = h.new (ground (arith, seen, q, e)) in
          ground (arith, tally, e, none_before);
    }

write_approvals-IsOnce :
    (k : Text) (js : List Json) (s : Stream) → IsOnce k s → IsOnce k (write_approvals js s)
unfolding write_approvals
write_approvals-IsOnce k [] s h = h
write_approvals-IsOnce k (a ∷ rest) s h =
    let id = member (lit "id") a in
    let next : Stream =
      write (approval_required a)
        (record s { seen_approval_ids = s.seen_approval_ids ++ id ∷ [] }) in
    if-holds (IsOnce k) (not (is_truthy id) || has_seen id s.seen_approval_ids)
      (write_approvals rest s) (write_approvals rest next) (λ _. write_approvals-IsOnce k rest s h)
      (λ e. write_approvals-IsOnce k rest next (announce-IsOnce k a s (ground arith) h))

-- A record that differs in other fields only.
like-IsOnce :
    (k : Text) (s x : Stream)
    → x.out ≡ s.out
    → x.seen_approval_ids ≡ s.seen_approval_ids
    → IsOnce k s
    → IsOnce k x
like-IsOnce k s x o n h = record {
  once = omega (arith, ap (count_of (announces k)) o, h.once);
  new = λ q. ap (count_of (announces k)) o ∙ h.new (ap (has_seen (some (string k))) (sym n) ∙ q);
}

take_logs-IsOnce :
    (k : Text) (number_of : Option Json → Option ℕ) (to entries : Option Json) (s : Stream)
    → IsOnce k s
    → IsOnce k (take_logs number_of to entries s)
take_logs-IsOnce k number_of to (some (array js)) s h =
    let x = write_logs (array_items (some (array js))) s in
    like-IsOnce k x _ refl refl (write_logs-IsOnce k (array_items (some (array js))) s h)
take_logs-IsOnce k number_of to none s h = h
take_logs-IsOnce k number_of to (some _) s h = h

if-IsOnce :
    (k : Text) (b : Bool) (x s : Stream) → IsOnce k x → IsOnce k s → IsOnce k (if b then x else s)
if-IsOnce k true x s p q = p
if-IsOnce k false x s p q = q

tell_first-IsOnce :
    (k : Text) (v : Option Json) (changed : Bool) (s : Stream)
    → IsOnce k s
    → IsOnce k (tell_first v changed s)
tell_first-IsOnce k v changed s h =
    let x = write_status v (record s { sent_initial_status = true }) in
    if-IsOnce k (changed && not s.sent_initial_status) x s
      (write-IsOnce k (status v) s x refl refl refl h) h

tell_change-IsOnce :
    (k : Text) (v : Option Json) (changed : Bool) (s : Stream)
    → IsOnce k s
    → IsOnce k (tell_change v changed s)
tell_change-IsOnce k v changed s h =
    if-IsOnce k (changed && s.sent_initial_status && not (same_value v s.last_status))
      (write_status v s) s (write-IsOnce k (status v) s (write_status v s) refl refl refl h) h

finish-IsOnce :
    (k : Text) (v : Option Json) (r : Json) (s : Stream) → IsOnce k s → IsOnce k ((finish v r s).0)
finish-IsOnce k v r s h =
    if-holds (λ (y : Stream × Bool). IsOnce k (y.0)) (is_terminal_status v)
      (write (complete v r) s, false) (s, true)
      (λ _. write-IsOnce k (complete v r) s (write (complete v r) s) refl refl refl h) (λ _. h)

tick-IsOnce :
    (k : Text) (number_of : Option Json → Option ℕ) (task logs : Json) (s : Stream)
    → IsOnce k s
    → IsOnce k ((tick number_of task logs s).0)
unfolding tick
tick-IsOnce k number_of task logs s h =
    let now = member (lit "status") task in
    let changed = is_truthy now && not (same_value now s.last_status) in
    let to = member (lit "to") logs in
    let entries = member (lit "entries") logs in
    let approvals = array_items (member (lit "pendingApprovals") task) in
    let first = tell_first now changed s in
    let logged = take_logs number_of to entries first in
    let told = tell_change now changed logged in
    finish-IsOnce k now (or_null (or_truthy (member (lit "result") task) none))
      (write_approvals approvals told)
      (write_approvals-IsOnce k approvals told (
        tell_change-IsOnce k now changed logged
          (take_logs-IsOnce k number_of to entries first (tell_first-IsOnce k now changed s h))))

run-IsOnce :
    (k : Text) (number_of : Option Json → Option ℕ) (polls : List Poll) (s : Stream)
    → IsOnce k s
    → IsOnce k (run_stream number_of polls s)
unfolding run_stream
run-IsOnce k number_of [] s h = h
run-IsOnce k number_of (gone ∷ rest) s h = h
run-IsOnce k number_of (fails m ∷ rest) s h =
    like-IsOnce k (write (error m) s) _ refl refl
      (write-IsOnce k (error m) s (write (error m) s) refl refl refl h)
run-IsOnce k number_of (answers task logs ∷ rest) s h =
    let r = tick number_of task logs s in
    let ticked = tick-IsOnce k number_of task logs s h in
    if-IsOnce k (r.1) (run_stream number_of rest (r.0)) (end_stream (r.0))
      (run-IsOnce k number_of rest (r.0) ticked)
      (like-IsOnce k (r.0) (end_stream (r.0)) refl refl ticked)

-- Whatever the polls give, a stream announces the approval with a given text as its id at most once.
pub run_stream_announces_once :
    (number_of : Option Json → Option ℕ) (polls : List Poll) (k : Text)
    → announced k (run_stream number_of polls new_stream) ≤ 1
unfolding count_of
run_stream_announces_once number_of polls k =
    let start : IsOnce k new_stream = record { once = omega arith; new = λ _. refl } in
    (run-IsOnce k number_of polls new_stream start).once
