-- ===== src/Memories/Confidence.antt =====
-- The confidence of a memory over an update, `update` of src/runtime/memoryManager.js.
use ender.Prelude.{
  false, [], ◌∷◌, none, some, Option, Text, trim, is_empty, lookup, lookup-insert, text_eq_refl,
  ◌≡◌, refl, ap, ◌∙◌,
}
use ender.Json.{string, Number, natural}
use ender.Json.Read.{trimmed, string_of, js_string}
use ender.Memories.{
  Memory, Value, Draft, Verdict, accepted, rejected, validate, clamped, clamped_if, number_of,
}
use ender.Memories.Manager.{Memories, update_memory, merge, number_or_null}

abbrev pub no_changes : Draft
no_changes = record {
  scope = none;
  kind = none;
  title = none;
  body = none;
  project_id = none;
  thread_id = none;
  tags = none;
  load_policy = none;
  confidence = none;
}

abbrev pub confidence_in : Option Memory → Option Number
confidence_in none = none
confidence_in (some m) = m.value.confidence

trimmed_string : (t : Text) → trimmed (some (string t)) ≡ trim t
unfolding string_of js_string
trimmed_string [] = refl
trimmed_string (c ∷ t) = refl

confidence_of : Verdict → Option Number
confidence_of (accepted v) = v.confidence
confidence_of (rejected e) = none

Accepts : Verdict → Type 0
Accepts x = (v : Value) × (x ≡ accepted v) × (v.confidence ≡ some (natural 0))

validate-merge_lem :
    (parse_number : Text → Option Number) (v : Value)
    → is_empty (trim v.title) ≡ false
    → is_empty (trim v.body) ≡ false
    → v.confidence ≡ none
    → Accepts (validate parse_number (merge no_changes v))
unfolding merge validate number_of clamped Accepts
validate-merge_lem parse_number v title body h =
    rw (ap is_empty (trimmed_string v.title) ∙ title, ap is_empty (trimmed_string v.body) ∙ body)
      (_, refl, ap (λ c. clamped_if (number_of parse_number (some (number_or_null c)))) h)

-- An update that names no field, of a memory without a confidence and with a title and a body that
-- are not blank, gives the memory the confidence 0.
pub update_memory_invents :
    (parse_number : Text → Option Number) (now id : Text) (s : Memories) (m : Memory)
    → lookup (trim id) s.items ≡ some m
    → m.id ≡ trim id
    → is_empty (trim m.value.title) ≡ false
    → is_empty (trim m.value.body) ≡ false
    → m.value.confidence ≡ none
    → confidence_in (lookup (trim id) (update_memory parse_number now id no_changes none s).0.items)
      ≡ some (natural 0)
unfolding update_memory Accepts
update_memory_invents parse_number now id s m found own title body h =
    let (v, e, c) = validate-merge_lem parse_number m.value title body h in
    rw (found, e, lookup-insert m.id (trim id) _ s.items, own, text_eq_refl (trim id)) c
