-- ===== src/Memories.antt =====
-- Memories: what src/runtime/memoryManager.js remembers between tasks, the reading of an input
-- (`_validate`) and the record of a memory as it is shown and saved (`_serialize`). `parse_number` is
-- Number() of a text.
pub mod Search
pub mod Pack
pub mod Manager
pub mod Isolation
pub mod Confidence
pub mod Ranking
use ender.Prelude.{
  Bool, true, false, List, [], ◌∷◌, ◌++◌, Option, none, some, Text, lit, is_empty, text_eq, trim,
  includes, map, or_else, ◌==◌, if◌then◌else◌,
}
use ender.Json.{
  Json, null, boolean, number, string, array, object, Number, natural, negative, fraction,
  sanitize_string,
}
use ender.Json.Read.{string_of, js_string, trimmed, trimmed_if, member, array_items, items_of}

pub data Scope : Type 0 where
  global project thread : Scope

pub data Kind : Type 0 where
  fact preference summary resource note : Kind

pub data LoadPolicy : Type 0 where
  auto pinned manual off : LoadPolicy

pub data Status : Type 0 where
  active archived : Status

pub record Value : Type 0 where
  pub scope : Scope
  pub kind : Kind
  pub title : Text
  pub body : Text
  pub project_id : Option Text
  pub thread_id : Option Text  -- sourceThreadId
  pub tags : List Text
  pub load_policy : LoadPolicy
  pub confidence : Option Number

pub record Memory : Type 0 where
  pub id : Text
  pub value : Value
  pub status : Status
  pub created_at : Text
  pub updated_at : Text

-- An input; `none` is an absent field.
pub record Draft : Type 0 where
  pub scope : Option Json
  pub kind : Option Json
  pub title : Option Json
  pub body : Option Json
  pub project_id : Option Json
  pub thread_id : Option Json
  pub tags : Option Json
  pub load_policy : Option Json
  pub confidence : Option Json

abbrev pub scope_text : Scope → Text
scope_text global = lit "global"
scope_text project = lit "project"
scope_text thread = lit "thread"

abbrev pub kind_text : Kind → Text
kind_text fact = lit "fact"
kind_text preference = lit "preference"
kind_text summary = lit "summary"
kind_text resource = lit "resource"
kind_text note = lit "note"

abbrev pub policy_text : LoadPolicy → Text
policy_text auto = lit "auto"
policy_text pinned = lit "pinned"
policy_text manual = lit "manual"
policy_text off = lit "off"

-- The value that a text names, among those that there are.
abbrev pub named {ℓ} : {A : Type ℓ} → (A → Text) → List A → Text → Option A
named name [] s = none
named name (x ∷ xs) s = if text_eq (name x) s then some x else named name xs s

unfoldable pub scope_of : Text → Option Scope
scope_of = named scope_text (global ∷ project ∷ thread ∷ [])

unfoldable pub kind_of : Text → Option Kind
kind_of = named kind_text (fact ∷ preference ∷ summary ∷ resource ∷ note ∷ [])

unfoldable pub policy_of : Text → Option LoadPolicy
policy_of = named policy_text (auto ∷ pinned ∷ manual ∷ off ∷ [])

abbrev pub status_of : Text → Option Status
status_of s =
    if text_eq s (lit "active")
    then some active
    else if text_eq s (lit "archived")
    then some archived
    else none

-- The loop of `[...new Set(items.map(...).filter(Boolean))]`.
abbrev pub distinct_items : List Text → List Json → List Text
distinct_items seen [] = seen
distinct_items seen (x ∷ xs) =
    let s = trimmed (some x) in
    distinct_items (if is_empty s then seen else if includes seen s then seen else seen ++ s ∷ [])
      xs

-- normalizeArray
unfoldable pub normalize_array : Option Json → List Text
normalize_array v = distinct_items [] (array_items v)

abbrev has_small_exponent : Text → Bool
has_small_exponent [] = false
has_small_exponent (c ∷ []) = false
has_small_exponent (c ∷ d ∷ s) =
    if text_eq (c ∷ d ∷ []) (lit "e-") then true else has_small_exponent (d ∷ s)

-- `Math.max(0, Math.min(1, x))`. A fraction below 1 is written `0.…` or with a negative exponent.
abbrev pub clamped_fraction : Text → Number
clamped_fraction [] = natural 0
clamped_fraction (c ∷ s) =
    if text_eq (c ∷ []) (lit "-")
    then natural 0
    else if text_eq (c ∷ []) (lit "0")
    then fraction (c ∷ s)
    else if has_small_exponent s
    then fraction (c ∷ s)
    else natural 1

unfoldable pub clamped : Number → Number
clamped (natural n) = natural (if n == 0 then 0 else 1)
clamped (negative n) = natural 0
clamped (fraction s) = clamped_fraction s

-- Number(v); `none` where it is not finite.
unfoldable pub number_of : (Text → Option Number) → Option Json → Option Number
number_of parse_number none = none
number_of parse_number (some null) = some (natural 0)
number_of parse_number (some (boolean b)) = some (natural (if b then 1 else 0))
number_of parse_number (some (number n)) = some n
number_of parse_number (some (string s)) = parse_number s
number_of parse_number (some (array xs)) = parse_number (js_string (array xs))
number_of parse_number (some (object fs)) = none

abbrev pub clamped_if : Option Number → Option Number
clamped_if none = none
clamped_if (some n) = some (clamped n)

pub data Verdict : Type 0 where
  accepted : Value → Verdict
  rejected : Text → Verdict

-- `_validate`
unfoldable pub validate : (Text → Option Number) → Draft → Verdict
unfolding scope_of kind_of policy_of normalize_array number_of clamped
validate parse_number d =
    let title = trimmed d.title in
    let body = trimmed d.body in
    if is_empty title
    then rejected (lit "title_required")
    else if is_empty body
    then rejected (lit "body_required")
    else accepted (record {
      scope = or_else (scope_of (string_of d.scope)) global;
      kind = or_else (kind_of (string_of d.kind)) note;
      title = title;
      body = body;
      project_id = trimmed_if d.project_id;
      thread_id = trimmed_if d.thread_id;
      tags = normalize_array d.tags;
      load_policy = or_else (policy_of (string_of d.load_policy)) auto;
      confidence = clamped_if (number_of parse_number d.confidence);
    })

-- `v || null`, cleaned.
abbrev pub cleaned_if : Option Text → Option Text
cleaned_if none = none
cleaned_if (some []) = none
cleaned_if (some (c ∷ s)) = some (sanitize_string (c ∷ s))

-- `_serialize`; the words of the enumerations are clean.
unfoldable pub serialize : Memory → Memory
serialize m = record m {
  id = sanitize_string m.id;
  value = record m.value {
    title = sanitize_string m.value.title;
    body = sanitize_string m.value.body;
    project_id = cleaned_if m.value.project_id;
    thread_id = cleaned_if m.value.thread_id;
    tags = map sanitize_string m.value.tags;
  };
  created_at = sanitize_string m.created_at;
  updated_at = sanitize_string m.updated_at;
}
