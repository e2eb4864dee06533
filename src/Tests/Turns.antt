-- ===== src/Tests/Turns.antt =====
-- Tests of the agent loop.
use ender.Prelude.{ℕ, false, [], ◌∷◌, List, Option, none, some, lit, ◌≡◌, refl, arith}
use ender.Json.{string}
use ender.Agent.{human}
use ender.Agent.Loop.{
  Request, aborts, says, Turn, State, Next, loops, start, run, run_call, run_calls, turn,
  take_calls, end_turn,
}
use ender.Agent.Answers.{IsOpen, every_call_answered}
use ender.Agent.Limits.{IsOver, run_ends}
use ender.Agent.Blind.{GoesOnAt, unknown_tools_never_stall}

abbrev lost_call : Request
lost_call = record {
  call = record { id = some (lit "c1"); name = lit "nowhere"; args = none };
  aborted = false;
  fresh_id = lit "f1";
  answer = aborts;
}

abbrev lost : Turn
lost = record { aborted = false; reply = says none (lost_call ∷ []) false }

abbrev first_state : State
first_state = start (human (string (lit "Hi")) ∷ [])

abbrev loop : Option ℕ → List Turn → Next
loop limit es = run (λ j. lit "{}") (λ s. none) (λ s. s) (λ s. false) limit 4 es first_state

abbrev state_in : Next → State
state_in (loops s) = s
state_in _ = first_state

still_going : loop none (lost ∷ lost ∷ []) ≡ loops (state_in (loop none (lost ∷ lost ∷ [])))
unfolding run turn take_calls run_calls run_call end_turn
still_going = refl

every_call_answered_example : IsOpen [] (state_in (loop none (lost ∷ lost ∷ []))).transcript
every_call_answered_example =
    every_call_answered (λ j. lit "{}") (λ s. none) (λ s. s) (λ s. false) none 4 (lost ∷ lost ∷ [])
      first_state (state_in (loop none (lost ∷ lost ∷ []))) refl still_going

run_ends_example : IsOver 1 (loop (some 1) (lost ∷ lost ∷ []))
run_ends_example =
    run_ends (λ j. lit "{}") (λ s. none) (λ s. s) (λ s. false) 1 4 (lost ∷ lost ∷ []) first_state
      (omega arith) (omega arith)

unknown_tools_never_stall_example : GoesOnAt 2 (loop none (lost ∷ lost ∷ []))
unknown_tools_never_stall_example =
    unknown_tools_never_stall (λ j. lit "{}") (λ s. none) (λ s. s) (λ s. false) 4 (lost ∷ lost ∷ [])
      first_state ((refl, (refl, ((refl, refl), tt))), ((refl, (refl, ((refl, refl), tt))), tt))
