-- ===== src/Task/Saved/Restored.antt =====
-- A task that is over is read back from its record as it was.
use ender.Prelude.{
  ℕ, ◌≤◌, ◌-◌, true, false, List, [], ◌∷◌, map, Option, none, some, Text, lit, text_eq, text_or,
  length, last_items, ◌≡◌, refl, ap, ◌∙◌, arith,
}
use ender.Json.{Json, string}
use ender.Json.Read.{string_of, string_if, string_or, js_string, array_items}
use ender.Json.Read.Back.{IsFull, string_of-string, string_or-string, js_string-string}
use ender.Approval.{Store, create_store, create_store_from, list}
use ender.Task.Status.{Status, is_active, is_terminal, name_of, of_name}
use ender.Task.Record.{Task, Env, Log, Message, MemoryMode, automatic, manual, off}
use ender.Task.Publish.{max_logs}
use ender.Task.Host.{Host}
use ender.Task.Manager.{mode_of, mode_name}
use ender.Task.Saved.{
  serialize_task, read_task, hydrate_task, hydrated, fresh_world, log_json, log_of, message_json,
  message_in, payload_of, approval_json, text_or_null, result_or_null, result_in, profile_in,
  list_json,
}

abbrev pub IsFullIf : Option Text → Type 0
IsFullIf none = Unit
IsFullIf (some s) = IsFull s

-- A task as it stands when it is over; the profile is set, or there is no default.
pub record IsStored (host : Host) (t : Task) : Type 0 where
  pub over : is_terminal t.status ≡ true
  pub title : IsFull t.title
  pub execution_prompt : IsFull t.execution_prompt
  pub initial_goal : IsFull t.initial_goal
  pub latest_prompt : IsFull t.latest_prompt
  pub started_at : IsFull t.started_at
  pub finished_at : IsFullIf t.finished_at
  pub logs : length t.logs ≤ max_logs
  pub pending : t.pending ≡ []
  pub workspace : IsFull t.workspace
  pub workspace_label : IsFull t.workspace_label
  pub project_id : IsFullIf t.project_id
  pub llm_profile_id : IsFullIf t.llm_profile_id
  pub profile : profile_in host t.llm_profile_id ≡ t.llm_profile_id
  pub ledger_entry_id : IsFullIf t.ledger_entry_id
  pub parent_task_id : IsFullIf t.parent_task_id

-- What is not saved: the streams, the callers, the run, and the timer of the next save.
abbrev pub restored : Task → Task
restored t = record t { subs = []; waiters = []; controller = none; deleted = false; timer = false }

full_or : (s d : Text) → IsFull s → text_or s d ≡ s
full_or [] d h = cc
full_or (c ∷ s) d h = refl

string_if-null : (o : Option Text) → IsFullIf o → string_if (some (text_or_null o)) ≡ o
unfolding string_if js_string
string_if-null none h = refl
string_if-null (some []) h = cc
string_if-null (some (c ∷ s)) h = refl

result_in-null : (o : Option Text) → result_in (some (result_or_null o)) ≡ o
unfolding js_string
result_in-null none = refl
result_in-null (some s) = refl

mode_of-mode_name : (m : MemoryMode) → mode_of (string_if (some (string (mode_name m)))) ≡ m
unfolding mode_of string_if js_string lit text_eq
mode_of-mode_name automatic = refl
mode_of-mode_name manual = refl
mode_of-mode_name off = refl

of_name-name_of :
    (s : Status) (d : Text)
    → is_terminal s ≡ true
    → of_name (string_or (some (string (name_of s))) d) ≡ s
unfolding of_name name_of js_string lit text_eq
of_name-name_of Status.done d h = refl
of_name-name_of Status.error d h = refl
of_name-name_of Status.canceled d h = refl
of_name-name_of Status.terminated d h = refl
of_name-name_of Status.blocked d h = refl
of_name-name_of Status.needs_input d h = refl
of_name-name_of _ d h = cc

map_back {ℓ} :
    {A : Type ℓ} (f : A → Json) (g : Json → A) (xs : List A)
    → ((x : A) → g (f x) ≡ x)
    → map g (array_items (some (list_json (map f xs)))) ≡ xs
unfolding array_items
map_back f g [] h = refl
map_back f g (x ∷ xs) h = cc (h x, map_back f g xs h)

log_of-json : (l : Log) → log_of (log_json l) ≡ l
unfolding lit text_eq
log_of-json l = rw (string_of-string l.level)

message_in-json : (m : Message) → message_in (message_json m) ≡ m
unfolding lit text_eq
message_in-json m = rw (string_of-string m.role)

last_items-all {ℓ} : {A : Type ℓ} (n : ℕ) (xs : List A) → length xs ≤ n → last_items n xs ≡ xs
last_items-all n xs h = let e : length xs - n ≡ 0 = omega arith in rw e

-- A text that is saved with a second choice beside it.
stored_or : (s g d : Text) → IsFull s → text_or (string_of (some (string (text_or s g)))) d ≡ s
unfolding string_of js_string
stored_or [] g d h = cc
stored_or (c ∷ s) g d h = refl

read_pending :
    (now : Text) (p : Store)
    → p ≡ []
    → create_store now
        (map payload_of (array_items (some (list_json (map approval_json (list p))))))
      ≡ p
unfolding create_store create_store_from list array_items
read_pending now p h = rw h refl

read-serialize :
    (env : Env) (host : Host) (t : Task)
    → IsStored host t
    → read_task env host (serialize_task t) ≡ restored t
unfolding read_task serialize_task lit text_eq
read-serialize env host t v = λ i. record (restored t) {
  id = js_string-string t.id i;
  title = stored_or t.title t.goal (string_or (some (string t.goal)) (lit "Task")) v.title i;
  goal = string_of-string t.goal i;
  execution_prompt =
      stored_or t.execution_prompt t.goal (string_or (some (string t.goal)) []) v.execution_prompt
        i;
  status = of_name-name_of t.status (name_of Status.error) v.over i;
  started_at = string_or-string t.started_at env.now v.started_at i;
  finished_at = string_if-null t.finished_at v.finished_at i;
  logs =
      (ap (last_items max_logs) (map_back log_json log_of t.logs log_of-json)
          ∙ last_items-all max_logs t.logs v.logs)
        i;
  result = result_in-null t.result i;
  initial_goal =
      stored_or t.initial_goal t.goal (string_or (some (string t.goal)) []) v.initial_goal i;
  latest_prompt =
      stored_or t.latest_prompt t.goal (string_or (some (string t.goal)) []) v.latest_prompt i;
  thread = map_back message_json message_in t.thread message_in-json i;
  pending = read_pending env.now t.pending v.pending i;
  workspace = string_or-string t.workspace host.workdir v.workspace i;
  workspace_label =
      stored_or t.workspace_label t.workspace (string_or (some (string t.workspace)) host.workdir)
        v.workspace_label i;
  project_id = string_if-null t.project_id v.project_id i;
  llm_profile_id =
      (ap (profile_in host) (string_if-null t.llm_profile_id v.llm_profile_id) ∙ v.profile) i;
  memory_mode = mode_of-mode_name t.memory_mode i;
  ledger_entry_id = string_if-null t.ledger_entry_id v.ledger_entry_id i;
  parent_task_id = string_if-null t.parent_task_id v.parent_task_id i;
  child_task_ids = map_back string js_string t.child_task_ids js_string-string i;
}

is_over : (s : Status) → is_terminal s ≡ true → is_active s ≡ false
is_over Status.running h = cc
is_over Status.awaiting_approval h = cc
is_over _ h = refl

hydrated_over :
    (env : Env) (t : Task) → is_active t.status ≡ false → hydrated env t ≡ some (fresh_world t)
hydrated_over env t h = rw h

-- The record of a task that is over, with texts where the program keeps texts, no more logs than are
-- kept and no open approval, is read back as the task itself, without streams, callers and run.
pub hydrate-serialize_task :
    (env : Env) (host : Host) (t : Task)
    → IsStored host t
    → hydrate_task env host (serialize_task t) ≡ some (fresh_world (restored t))
unfolding hydrate_task
hydrate-serialize_task env host t v =
    ap (hydrated env) (read-serialize env host t v)
    ∙ hydrated_over env (restored t) (is_over t.status v.over)
