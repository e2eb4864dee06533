-- ===== src/Tests/Calls.antt =====
-- Tests of the public calls on a task.
use ender.Prelude.{
  true, false, [], ◌∷◌, ◌++◌, none, some, lit, ◌≡◌, refl, lookup, text_eq, trim, is_space, Text,
  if◌then◌else◌,
}
use ender.Json.{
  string, sanitize_string, drop_nul, blank_controls, replace_high, replace_low, is_high, is_low,
  is_control,
}
use ender.Json.Read.{js_string, string_of, array_items}
use ender.Approval.{Pending}
use ender.Task.Status.{running, awaiting_approval, terminated}
use ender.Task.Record.{executing}
use ender.Task.Content.{
  has_thread_content, message_of, build_content, normalize_input, normalize_blocks,
}
use ender.Task.Calls.{accepted, continue_task, resolve_approval, terminate}
use ender.Task.Calls.Laws.{terminate_active, continue_accepted, resolve_approval_effect, is_last}
use ender.Tests.Sample.{env, busy, asking, ended_world, allowed_push}

terminate_active_example :
    ((terminate env busy).1 ≡ accepted)
    × ((terminate env busy).0.task.status ≡ terminated)
    × ((terminate env busy).0.task.finished_at ≡ some (lit "t1"))
    × ((terminate env busy).0.task.controller ≡ some (record { number = 1; aborted = true }))
    × ((terminate env busy).0.task.pending ≡ [])
    × ((terminate env busy).0.task.waiters ≡ [])
    × ((terminate env busy).0.task.subs ≡ [])
terminate_active_example = terminate_active env busy refl

has_words : has_thread_content (some (message_of (string (lit "Go on")))) ≡ true
unfolding has_thread_content build_content normalize_input normalize_blocks array_items string_of
    js_string sanitize_string drop_nul blank_controls replace_high replace_low is_high is_low
    is_control trim is_space lit
has_words = refl

continue_accepted_example :
    ((continue_task env (string (lit "Go on")) ended_world).1 ≡ accepted)
    × ((continue_task env (string (lit "Go on")) ended_world).0.task.status ≡ running)
    × ((continue_task env (string (lit "Go on")) ended_world).0.task.thread
        ≡ ended_world.task.thread
          ++ record { role = lit "user"; content = message_of (string (lit "Go on")) } ∷ [])
    × ((continue_task env (string (lit "Go on")) ended_world).0.task.run_count ≡ 2)
    × ((continue_task env (string (lit "Go on")) ended_world).0.phase
          (continue_task env (string (lit "Go on")) ended_world).0.task.run_count
        ≡ executing)
    × ((continue_task env (string (lit "Go on")) ended_world).0.task.controller
        ≡ some (record { number = 2; aborted = false }))
    × ((continue_task env (string (lit "Go on")) ended_world).0.task.pending ≡ [])
    × ((continue_task env (string (lit "Go on")) ended_world).0.task.finished_at ≡ none)
continue_accepted_example = continue_accepted env (string (lit "Go on")) ended_world refl has_words

abbrev p1 : Pending
p1 = record { approval = allowed_push; live = true }

p1_pending : lookup (lit "p1") asking.task.pending ≡ some p1
unfolding lookup text_eq lit
p1_pending = refl

resolve_approval_effect_example :
    ((resolve_approval env (lit "p1") true asking).1 ≡ accepted)
    × ((k : Text)
        → lookup k (resolve_approval env (lit "p1") true asking).0.task.pending
          ≡ (if text_eq (lit "p1") k then none else lookup k asking.task.pending))
    × ((resolve_approval env (lit "p1") true asking).0.task.status ≡ (
        if is_last (resolve_approval env (lit "p1") true asking).0.task.pending
        then running
        else awaiting_approval))
resolve_approval_effect_example = resolve_approval_effect env (lit "p1") true asking p1 p1_pending
