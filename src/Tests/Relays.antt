-- ===== src/Tests/Relays.antt =====
-- Tests of the relay: a poll waits, a request comes for it, and the server answers.
use ender.Prelude.{
  ◌+◌, ◌≤◌, List, [], ◌∷◌, ◌++◌, map, none, some, Text, lit, text_eq, trim, trim_start, trim_end,
  is_space, lookup, insert, remove, keep, count_of, length, ◌≡◌, refl, arith,
}
use ender.Relay.{Base64, Input, Response, one, new_request, sanitize_onto, to_wire}
use ender.Relay.Queue.{
  Act, Server, enqueues, polls, completes, times_out, act, run_acts, new_server, enqueue, poll,
  complete, take_requests, flush_loop, deliver, batch_size,
}
use ender.Relay.Balance.{copies, settled}
use ender.Relay.Balance.Moves.{open_count, enqueued}
use ender.Relay.Balance.Once.{each_request_settled_once}
use ender.Relay.Order.{run-is_fifo, sent_wires, calls_of, AreCarried}
use ender.Relay.Waiting.{run_acts-IsServed, new-IsServed, IsServed}
use ender.Relay.Servers.{Call, run_calls, get_server, acts_of, run_calls-apart}

abbrev codec : Base64
codec = record { encode = λ bytes. bytes; decode = λ s. s }

abbrev question : Input
question = record {
  method = lit "POST";
  path = lit "/tasks";
  headers = (lit "Accept", one (lit "*/*")) ∷ (lit "Host", one (lit "pillar")) ∷ [];
  body = 123 ∷ 125 ∷ [];
}

abbrev response : Response
response = record { status = some 200; headers = []; body_base64 = none }

abbrev talk : List (Text × Act)
talk =
    (lit "t1", polls 1 none (some 5))
    ∷ (lit "t2", enqueues (lit "r") question)
    ∷ (lit "t3", completes (lit "r") response)
    ∷ []

abbrev after_talk : Server
after_talk = run_acts codec talk (new_server (lit "s"))

answered_once : settled (lit "r") after_talk.out ≡ 1
unfolding run_acts act poll enqueue complete take_requests flush_loop deliver batch_size lookup
    insert remove keep settled new_request sanitize_onto text_eq lit
answered_once = refl

enqueued_once : (k : Text) → enqueued k talk ≤ 1
unfolding count_of
enqueued_once k = ground arith

each_request_settled_once_example :
    (open_count (lit "r") after_talk + settled (lit "r") after_talk.out ≡ enqueued (lit "r") talk)
    × (copies (lit "r") after_talk.timers ≡ open_count (lit "r") after_talk)
each_request_settled_once_example =
    each_request_settled_once codec (lit "s") talk enqueued_once (lit "r")

run-is_fifo_example :
    AreCarried codec (calls_of talk) (sent_wires after_talk.out ++ map to_wire after_talk.pending)
run-is_fifo_example = run-is_fifo codec (lit "s") talk refl

run_acts-IsServed_example : IsServed after_talk
run_acts-IsServed_example =
    run_acts-IsServed codec talk (new_server (lit "s")) (new-IsServed (lit "s"))

abbrev calls : List Call
calls =
    record { now = lit "t1"; server_id = lit " s "; what = polls 1 none (some 5) }
    ∷ record { now = lit "t2"; server_id = lit "other"; what = enqueues (lit "r") question }
    ∷ record { now = lit "t3"; server_id = lit "s"; what = times_out (lit "r") }
    ∷ []

two_acts : length (acts_of (lit "s") calls) ≡ 2
unfolding acts_of trim trim_start trim_end is_space text_eq lit
two_acts = refl

run_calls-apart_example :
    get_server (lit "s") (run_calls codec calls [])
    ≡ run_acts codec (acts_of (lit "s") calls) (new_server (lit "s"))
run_calls-apart_example = run_calls-apart codec (lit "s") calls (unfold lit in refl)
