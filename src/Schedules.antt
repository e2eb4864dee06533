-- ===== src/Schedules.antt =====
-- Schedules: what a request for a schedule says, and how `_validateInput` of
-- src/runtime/scheduleManager.js reads it with the schema of src/shared/contracts.js. `is_cron` is
-- node-cron's test of an expression.
pub mod Manager
pub mod Jobs
pub mod Failures
use ender.Prelude.{
  Bool, true, false, not, ◌&&◌, ◌||◌, List, [], ◌∷◌, Option, none, some, Text, lit, is_empty,
  non_empty, text_eq, text_of, includes, map, if◌then◌else◌,
}
use ender.Json.{Json, null, boolean, string, array, object, Items, nil, cons, Fields, end, field}
use ender.Json.Read.{
  member, member_of, trimmed, trimmed_if, object_if, is_not_false, items_of, item_list, array_items,
}

pub data MemoryMode : Type 0 where
  auto manual off : MemoryMode

-- What a schedule starts; `loaded` is the target of a record that was read from disk, kept as it is.
pub data Target : Type 0 where
  prompt_target : Text → Option Text → Option Text → Option Text → Option MemoryMode → Target
  thread_target : Text → Text → Target
  workflow_target : Text → List Json → Target
  loaded : Json → Target

-- A request, after the merge with a schedule that is there; `none` is an absent field.
pub record Draft : Type 0 where
  pub name : Option Json
  pub cron : Option Json
  pub timezone : Option Json
  pub enabled : Option Json
  pub created_by : Option Json
  pub target : Option Json

pub record Accepted : Type 0 where
  pub name : Text
  pub cron : Text
  pub timezone : Option Text
  pub enabled : Bool
  pub created_by : Option Text
  pub target : Target

pub data Verdict : Type 0 where
  accepted : Accepted → Verdict
  rejected : Text → Verdict

abbrev pub mode_text : MemoryMode → Text
mode_text auto = lit "auto"
mode_text manual = lit "manual"
mode_text off = lit "off"

unfoldable pub mode_of : Text → Option MemoryMode
mode_of s =
    if text_eq s (lit "auto")
    then some auto
    else if text_eq s (lit "manual")
    then some manual
    else if text_eq s (lit "off")
    then some off
    else none

abbrev pub is_object : Json → Bool
is_object (object fs) = true
is_object _ = false

-- `z.array(z.record(...))`
unfoldable pub are_objects : List Json → Bool
are_objects [] = true
are_objects (x ∷ xs) = is_object x && are_objects xs

-- `memoryMode`, absent or one of the three.
abbrev pub prompt_with_mode : Text → Json → Option Text → Option Target
prompt_with_mode p t none = some (
    prompt_target p (trimmed_if (member (lit "workspace") t))
      (trimmed_if (member (lit "projectId") t)) (trimmed_if (member (lit "llmProfileId") t)) none)
prompt_with_mode p t (some s) = elim (mode_of s) [
  | none ↦ none
  | some mode ↦ some (
      prompt_target p (trimmed_if (member (lit "workspace") t))
        (trimmed_if (member (lit "projectId") t)) (trimmed_if (member (lit "llmProfileId") t))
        (some mode))
]

-- scheduleTargetSchema, on the normalized target; `none` if it does not parse.
unfoldable pub parse_target : Json → Option Target
unfolding mode_of are_objects
parse_target t =
    let kind = trimmed (member (lit "kind") t) in
    let prompt = text_of (trimmed_if (member (lit "prompt") t)) in
    let thread = text_of (trimmed_if (member (lit "threadId") t)) in
    let workflow = text_of (trimmed_if (member (lit "workflowId") t)) in
    let inputs = array_items (member (lit "inputs") t) in
    if text_eq kind (lit "prompt")
    then if is_empty prompt
      then none
      else prompt_with_mode prompt t (trimmed_if (member (lit "memoryMode") t))
    else if text_eq kind (lit "thread")
    then if is_empty thread || is_empty prompt then none else some (thread_target thread prompt)
    else if text_eq kind (lit "workflow")
    then if is_empty workflow || not (are_objects inputs)
      then none
      else some (workflow_target workflow inputs)
    else none

-- The `error` for a target that does not parse.
unfoldable pub target_error : Json → Text
target_error t =
    let kind = trimmed (member (lit "kind") t) in
    if text_eq kind (lit "prompt")
    then lit "prompt_required"
    else if text_eq kind (lit "thread")
    then if is_empty (text_of (trimmed_if (member (lit "threadId") t)))
      then lit "thread_id_required"
      else lit "prompt_required"
    else if text_eq kind (lit "workflow")
    then lit "workflow_id_required"
    else lit "invalid_target_kind"

abbrev pub with_target : Text → Text → Draft → Json → Option Target → Verdict
with_target name cron d t none = rejected (target_error t)
with_target name cron d t (some target) = accepted (record {
  name = name;
  cron = cron;
  timezone = non_empty (trimmed d.timezone);
  enabled = is_not_false d.enabled;
  created_by = trimmed_if d.created_by;
  target = target;
})

abbrev pub with_object : Text → Text → Draft → Option Json → Verdict
with_object name cron d none = rejected (lit "target_required")
with_object name cron d (some t) = with_target name cron d t (parse_target t)

-- `_validateInput`
unfoldable pub validate : (Text → Bool) → Draft → Verdict
unfolding parse_target target_error
validate is_cron d =
    let name = trimmed d.name in
    let cron = trimmed d.cron in
    if is_empty name
    then rejected (lit "name_required")
    else if is_empty cron
    then rejected (lit "cron_required")
    else if not (is_cron cron)
    then rejected (lit "invalid_cron")
    else with_object name cron d (object_if d.target)

abbrev pub null_or : Option Text → Json
null_or none = null
null_or (some s) = string s

abbrev pub mode_field : Option MemoryMode → Fields
mode_field none = end
mode_field (some mode) = field (lit "memoryMode") (string (mode_text mode)) end

-- A target as the JSON value that it is.
unfoldable pub target_json : Target → Json
target_json (prompt_target p w project profile mode) = object (
    field (lit "kind") (string (lit "prompt")) (
      field (lit "prompt") (string p) (
        field (lit "workspace") (null_or w) (
          field (lit "projectId") (null_or project)
            (field (lit "llmProfileId") (null_or profile) (mode_field mode))))))
target_json (thread_target thread p) = object (
    field (lit "kind") (string (lit "thread"))
      (field (lit "threadId") (string thread) (field (lit "prompt") (string p) end)))
target_json (workflow_target workflow inputs) = object (
    field (lit "kind") (string (lit "workflow")) (
      field (lit "workflowId") (string workflow)
        (field (lit "inputs") (array (items_of inputs)) end)))
target_json (loaded j) = j
