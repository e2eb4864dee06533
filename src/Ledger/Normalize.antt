-- ===== src/Ledger/Normalize.antt =====
-- The functions that clean the inputs of a ledger entry, at the head of
-- src/runtime/taskLedgerManager.js.
use ender.Prelude.{
  ◌&&◌, ◌||◌, List, [], ◌∷◌, ◌++◌, Option, none, some, Text, lit, trim, lower, take, is_empty,
  includes, non_empty, text_or, ◌==◌, map, if◌then◌else◌,
}
use ender.Json.{Json, string, array}
pub use ender.Json.Read.{trimmed}
use ender.Json.Read.{string_of, member_of, item_list}

abbrev pub cons_head : List Text → Text → List Text
cons_head [] s = s ∷ []
cons_head (x ∷ xs) s = (s ++ x) ∷ xs

-- `s.split("\n")`
unfoldable pub split_lines : Text → List Text
split_lines [] = [] ∷ []
split_lines (c ∷ s) =
    let rest = split_lines s in if c == 10 then [] ∷ rest else cons_head rest (c ∷ [])

-- The first line that shows something.
unfoldable pub shown_line : List Text → Option Text
shown_line [] = none
shown_line (l ∷ ls) = if is_empty (trim l) then shown_line ls else some l

abbrev pub or_text : Option Text → Text → Text
or_text none d = d
or_text (some s) d = s

-- deriveTitle
unfoldable pub derive_title : Text → Text
unfolding split_lines shown_line
derive_title prompt =
    let raw = trim prompt in
    if is_empty raw then [] else take 120 (trim (or_text (shown_line (split_lines raw)) raw))

pub record Source : Type 0 where
  pub kind : Text
  pub label : Option Text
  pub reference_id : Option Text

-- normalizeSource; only an object has the three fields.
unfoldable pub normalize_source : Option Json → Option Source
normalize_source v =
    let kind = trimmed (member_of (lit "kind") v) in
    let label = trimmed (member_of (lit "label") v) in
    let reference = trimmed (member_of (lit "referenceId") v) in
    if is_empty kind && is_empty label && is_empty reference
    then none
    else some (record {
      kind = text_or kind (lit "external");
      label = non_empty label;
      reference_id = non_empty reference;
    })

-- normalizeTaskType
unfoldable pub normalize_task_type : Option Json → Text
normalize_task_type v = text_or (lower (trimmed v)) (lit "generic")

-- The loop of normalizeStringArray; `seen` holds what `items` holds.
unfoldable pub collect : List Text → List Text → List Text
collect items [] = items
collect items (x ∷ xs) =
    collect (if is_empty (trim x) || includes items (trim x) then items else items ++ trim x ∷ [])
      xs

-- The items of an array, or the lines of a text.
unfoldable pub raw_items : Option Json → List Text
unfolding split_lines
raw_items (some (array xs)) = map (λ j. string_of (some j)) (item_list xs)
raw_items (some (string s)) = split_lines s
raw_items _ = []

-- normalizeStringArray
unfoldable pub normalize_strings : Option Json → List Text
unfolding collect raw_items
normalize_strings v = collect [] (raw_items v)
