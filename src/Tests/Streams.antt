-- ===== src/Tests/Streams.antt =====
-- Tests of the streams of the relay: an approval that two polls show is announced by the first.
use ender.Prelude.{◌≤◌, List, [], ◌∷◌, none, lit, text_eq, count_of, ◌≡◌, refl}
use ender.Json.{Json, string, object, array, nil, cons, field, end}
use ender.Json.Read.{same_value, is_truthy, array_items}
use ender.Relay.Stream.{Poll, answers, run_stream, new_stream}
use ender.Relay.Stream.Approvals.{announced, run_stream_announces_once}

abbrev waiting_task : Json
waiting_task = object (
    field (lit "status") (string (lit "awaiting_approval")) (
      field (lit "pendingApprovals")
        (array (cons (object (field (lit "id") (string (lit "p1")) end)) nil)) end))

abbrev polled_twice : List Poll
polled_twice = answers waiting_task (object end) ∷ answers waiting_task (object end) ∷ []

is_announced : announced (lit "p1") (run_stream (λ v. none) polled_twice new_stream) ≡ 1
unfolding run_stream count_of lit text_eq is_truthy same_value array_items
is_announced = refl

run_stream_announces_once_example :
    announced (lit "p1") (run_stream (λ v. none) polled_twice new_stream) ≤ 1
run_stream_announces_once_example = run_stream_announces_once (λ v. none) polled_twice (lit "p1")
