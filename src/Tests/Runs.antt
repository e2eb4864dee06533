-- ===== src/Tests/Runs.antt =====
-- Tests of a run from its start to its end.
use ender.Prelude.{true, false, List, [], ◌∷◌, none, lit, ◌≡◌, refl, arith, includes}
use ender.Task.Status.{running, done, is_terminal, can_transition, allowed, of_outcome}
use ender.Task.Record.{Env, rejected}
use ender.Task.Publish.{persist, push_and_send, transition, publish_terminal}
use ender.Task.Run.{is_current, returned, save_ended, request_approval, failed}
use ender.Task.Calls.{wait_for}
use ender.Task.Steps.{Act, returns, saves, waits, run_acts, step}
use ender.Task.Steps.Invariant.{Inv}
use ender.Task.Steps.Traces.{AreOrderly, quiet_is_over, current_asks_safely}
use ender.Task.Steps.Stale.{failed_save_loses_waiters, foreign_abort_strands_task}
use ender.Tests.Sample.{env, busy, saving, permission}

busy-Inv : Inv busy
busy-Inv = ground arith

abbrev to_the_end : List (Env × Act)
to_the_end = (env, waits 5 none) ∷ (env, returns 1 (lit "Fixed") none) ∷ (env, saves 1 true) ∷ []

orderly : AreOrderly busy to_the_end
orderly = (tt, (tt, (refl, tt)))

ends : (run_acts to_the_end busy).task.controller ≡ none
unfolding run_acts step wait_for returned save_ended is_current transition can_transition allowed
    of_outcome push_and_send persist publish_terminal
ends = refl

quiet_is_over_example :
    (is_terminal (run_acts to_the_end busy).task.status ≡ true)
    × ((run_acts to_the_end busy).task.waiters ≡ [])
quiet_is_over_example = quiet_is_over to_the_end busy busy-Inv orderly ends

current_asks_safely_example : (request_approval env (lit "p1" ∷ []) 1 permission busy).1 ≡ false
unfolding run_acts lit includes
current_asks_safely_example =
    current_asks_safely [] busy env (lit "p1" ∷ []) 1 permission busy-Inv tt refl (refl, refl, tt)
      (omega arith)

failed_save_loses_waiters_example :
    ((save_ended env 1 false saving).phase 1 ≡ rejected)
    × ((save_ended env 1 false saving).task.status ≡ done)
    × ((save_ended env 1 false saving).task.waiters ≡ 9 ∷ [])
    × ((save_ended env 1 false saving).task.controller ≡ none)
failed_save_loses_waiters_example = failed_save_loses_waiters env 1 saving refl refl refl refl refl

foreign_abort_strands_task_example :
    ((save_ended env 1 true (failed env 1 true (lit "AbortError") busy)).task.status ≡ running)
    × ((save_ended env 1 true (failed env 1 true (lit "AbortError") busy)).task.controller ≡ none)
    × ((save_ended env 1 true (failed env 1 true (lit "AbortError") busy)).task.waiters ≡ 9 ∷ [])
foreign_abort_strands_task_example =
    foreign_abort_strands_task env env 1 (lit "AbortError") busy refl refl refl
