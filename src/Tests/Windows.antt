-- ===== src/Tests/Windows.antt =====
-- Tests of the views of a task and of the messages that a run gets.
use ender.Prelude.{
  ℕ, zero, suc, ◌≤◌, List, [], ◌∷◌, none, some, Text, lit, trim, length, ◌≡◌, refl, ap, ◌&&◌,
  if◌then◌else◌,
}
use ender.Json.{Json, null, string}
use ender.Task.Status.{running}
use ender.Task.Record.{Task, World, Log}
use ender.Task.Publish.{max_logs}
use ender.Task.Views.{
  execution_messages, run_messages, context_limit, is_given, prompt_message, page_of,
}
use ender.Task.Views.Window.{Has, execution_messages_lem}
use ender.Task.Views.Paging.{full_log_hides_pushes, push_all}
use ender.Tests.Sample.{env, busy, task_in}

abbrev log_of_size : ℕ → List Log
log_of_size zero = []
log_of_size (suc n) = record { at = n; level = lit "info"; entry = null } ∷ log_of_size n

length-log_of_size : (n : ℕ) → length (log_of_size n) ≡ n
length-log_of_size zero = refl
length-log_of_size (suc n) = ap suc (length-log_of_size n)

abbrev full : World
full = record busy { task = record busy.task { logs = log_of_size max_logs } }

full_log_hides_pushes_example :
    let seen = page_of 0 full.task.logs in
    let next =
      page_of seen.to (push_all ((env, none, some (string (lit "News"))) ∷ []) full).task.logs in
    (next.entries ≡ []) × (next.to ≡ seen.to)
full_log_hides_pushes_example =
    full_log_hides_pushes ((env, none, some (string (lit "News"))) ∷ []) full
      (length-log_of_size max_logs)

abbrev assigned : Task
assigned = record (task_in running none) {
  execution_prompt = lit "Fix it with care";
  ledger_entry_id = some (lit "e1");
}

abbrev print : Json → Text
print j = lit "same"

execution_messages_lem_example :
    let prompt = trim assigned.execution_prompt in
    let es = execution_messages print assigned in
    (length es ≤ context_limit)
    × (if is_given assigned.ledger_entry_id && is_given (some prompt)
        then Has (prompt_message prompt) es
        else es ≡ run_messages assigned.thread)
execution_messages_lem_example = execution_messages_lem print assigned
