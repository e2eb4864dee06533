-- ===== src/Ledger/Validate.antt =====
-- `_validateCreate` and `_validateUpdate` of src/runtime/taskLedgerManager.js. The input is a JSON
-- value; a field that it lacks is `none`.
use ender.Prelude.{
  Bool, true, false, List, Option, none, some, Text, lit, trim, lower, is_empty, non_empty,
  if◌then◌else◌,
}
use ender.Json.{Json, null}
use ender.Json.Read.{js_string, string_if, member, is_not_false, is_truthy}
use ender.Ledger.Normalize.{
  Source, derive_title, normalize_source, normalize_task_type, normalize_strings, trimmed,
}
use ender.Ledger.Entry.{EntryStatus, editable_of}

-- A value, or the `error` of the refusal.
pub data Checked {ℓ} (A : Type ℓ) : Type ℓ where
  valid : A → Checked A
  invalid : Text → Checked A

infixl 5 ◌>>=◌ ◌>>◌
abbrev pub ◌>>=◌ {ℓ κ} : {A : Type ℓ} {B : Type κ} → Checked A → (A → Checked B) → Checked B
valid a >>= k = k a
invalid e >>= k = invalid e

abbrev pub ◌>>◌ {ℓ} : {A : Type ℓ} → Checked (Unit {0}) → Checked A → Checked A
m >> k = m >>= λ _. k

-- `if (refused) return { ok: false, error }`
abbrev pub refuse_if : Bool → Text → Checked (Unit {0})
refuse_if true e = invalid e
refuse_if false e = valid tt

pub record NewEntry : Type 0 where
  pub title : Text
  pub prompt : Text
  pub task_type : Text
  pub workspace : Option Text
  pub auto_run : Bool
  pub source : Option Source
  pub success_criteria : List Text
  pub constraints : List Text
  pub verification_plan : List Text
  pub created_by_task_id : Option Text

-- `v == null ? null : String(v).trim() || null`
unfoldable pub workspace_of : Option Json → Option Text
workspace_of none = none
workspace_of (some null) = none
workspace_of (some j) = non_empty (trim (js_string j))

abbrev pub trim_if : Option Text → Option Text
trim_if none = none
trim_if (some s) = some (trim s)

-- `String(input?.title || deriveTitle(prompt)).trim()`
abbrev pub title_of : Option Json → Text → Text
title_of v prompt = if is_truthy v then trimmed v else trim (derive_title prompt)

unfoldable pub validate_create : Json → Checked NewEntry
validate_create input =
    let prompt = trimmed (member (lit "prompt") input) in
    let title = title_of (member (lit "title") input) prompt in
    refuse_if (is_empty prompt) (lit "prompt_required")
    >> (refuse_if (is_empty title) (lit "title_required")
        >> valid (record {
          title = title;
          prompt = prompt;
          task_type = normalize_task_type (member (lit "taskType") input);
          workspace = workspace_of (member (lit "workspace") input);
          auto_run = is_not_false (member (lit "autoRun") input);
          source = normalize_source (member (lit "source") input);
          success_criteria = normalize_strings (member (lit "successCriteria") input);
          constraints = normalize_strings (member (lit "constraints") input);
          verification_plan = normalize_strings (member (lit "verificationPlan") input);
          created_by_task_id = trim_if (string_if (member (lit "createdByTaskId") input));
        }))

-- The fields that an update gives; `none` is a field that the input lacks.
pub record Changes : Type 0 where
  pub title : Option Text
  pub prompt : Option Text
  pub task_type : Option Text
  pub workspace : Option (Option Text)
  pub auto_run : Option Bool
  pub source : Option (Option Source)
  pub success_criteria : Option (List Text)
  pub constraints : Option (List Text)
  pub verification_plan : Option (List Text)
  pub status : Option EntryStatus

-- A field of the input, read by `f` if the input has it.
abbrev pub given {ℓ} : {A : Type ℓ} → (Option Json → A) → Option Json → Option A
given f none = none
given f (some j) = some (f (some j))

unfoldable pub required : Text → Option Json → Checked (Option Text)
required e none = valid none
required e (some j) = refuse_if (is_empty (trimmed (some j))) e >> valid (some (trimmed (some j)))

abbrev pub known_status : Option EntryStatus → Checked (Option EntryStatus)
known_status none = invalid (lit "invalid_status")
known_status (some s) = valid (some s)

unfoldable pub status_change : Option Json → Checked (Option EntryStatus)
status_change none = valid none
status_change (some j) = known_status (editable_of (lower (trimmed (some j))))

unfoldable pub validate_update : Json → Checked Changes
unfolding required status_change
validate_update input = required (lit "title_required") (member (lit "title") input) >>= λ title.
    required (lit "prompt_required") (member (lit "prompt") input) >>= λ prompt.
    status_change (member (lit "status") input) >>= λ status. valid (record {
      title = title;
      prompt = prompt;
      task_type = given normalize_task_type (member (lit "taskType") input);
      workspace = given workspace_of (member (lit "workspace") input);
      auto_run = given is_truthy (member (lit "autoRun") input);
      source = given normalize_source (member (lit "source") input);
      success_criteria = given normalize_strings (member (lit "successCriteria") input);
      constraints = given normalize_strings (member (lit "constraints") input);
      verification_plan = given normalize_strings (member (lit "verificationPlan") input);
      status = status;
    })
