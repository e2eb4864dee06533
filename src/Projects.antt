-- ===== src/Projects.antt =====
-- Projects: the names and the records of src/runtime/projectManager.js, and the safe join of
-- src/utils/safePath.js. `to_lower` is toLowerCase, `resolve` path.resolve of two paths (the first
-- empty for one path), `base_name` path.basename with the suffix `.git`.
pub mod Manager
pub mod Workspace
pub mod Names
pub mod Ids
pub mod Places
use ender.Prelude.{
  ℕ, Bool, true, false, not, ◌&&◌, ◌||◌, List, [], ◌∷◌, ◌++◌, Option, none, some, Text, lit,
  is_empty, text_eq, text_or, trim, map, non_empty, starts_with, leb, ◌==◌, if◌then◌else◌,
}
use ender.Json.{
  Json, null, boolean, number, string, array, object, Items, nil, cons, Fields, end, field,
  sanitize_string,
}
use ender.Json.Read.{
  member, string_of, string_if, trimmed, trimmed_if, or_truthy, array_items, js_string, item_list,
}
use ender.Memories.{distinct_items, cleaned_if}

-- The class [a-z0-9._-].
unfoldable pub is_slug : ℕ → Bool
is_slug c = (leb 97 c && leb c 122) || (leb 48 c && leb c 57) || c == 46 || c == 95 || c == 45

-- `s.replace(/[^a-z0-9._-]+/g, "-")`; the flag says that the unit before was replaced.
unfoldable pub dashed : Bool → Text → Text
unfolding is_slug
dashed after_bad [] = []
dashed after_bad (c ∷ s) =
    let good = c ∷ dashed false s in
    let bad = dashed true s in if is_slug c then good else if after_bad then bad else 45 ∷ bad

-- `s.replace(/^-+|-+$/g, "")`
unfoldable pub strip_start : Text → Text
strip_start [] = []
strip_start (c ∷ s) = let rest = strip_start s in if c == 45 then rest else c ∷ s

unfoldable pub strip_end : Text → Text
strip_end [] = []
strip_end (c ∷ s) = let rest = strip_end s in if c == 45 && is_empty rest then [] else c ∷ rest

-- slugify
unfoldable pub slugify : (Text → Text) → Text → Text → Text
unfolding dashed strip_start strip_end
slugify to_lower s fallback =
    text_or (strip_end (strip_start (dashed false (to_lower (trim s))))) fallback

-- defaultDirectoryForRepo
unfoldable pub default_directory : (Text → Text) → (Text → Text) → Option Text → Text → Text
unfolding slugify
default_directory to_lower base_name url name =
    slugify to_lower (text_or (trim (base_name (trim (elim url [ none ↦ [] | some u ↦ u ])))) name)
      (lit "project")

pub record Resource : Type 0 where
  pub kind : Text
  pub label : Text
  pub url : Option Text

abbrev pub resource_of : Json → List Resource
resource_of (object fs) =
    let j = object fs in
    let url = trimmed (member (lit "url") j) in
    let label = trimmed (
      or_truthy (member (lit "label") j)
        (or_truthy (member (lit "title") j) (member (lit "url") j))) in
    let kind = trimmed (
      or_truthy (member (lit "kind") j)
        (or_truthy (member (lit "type") j) (some (string (lit "link"))))) in
    if is_empty label && is_empty url
    then []
    else record { kind = text_or kind (lit "link"); label = text_or label url; url = non_empty url }
      ∷ []
resource_of _ = []  -- an array has none of the properties

abbrev pub resources_of : List Json → List Resource
resources_of [] = []
resources_of (j ∷ js) = resource_of j ++ resources_of js

-- normalizeResources
unfoldable pub normalize_resources : Option Json → List Resource
normalize_resources v = resources_of (array_items v)

-- normalizeAliases
unfoldable pub normalize_aliases : Option Json → List Text
normalize_aliases v = distinct_items [] (array_items v)

abbrev pub full_texts : List Json → List Text
full_texts [] = []
full_texts (j ∷ js) = elim (non_empty (js_string j)) [
  | none ↦ full_texts js
  | some s ↦ s ∷ full_texts js
]

pub record Details : Type 0 where
  pub name : Text
  pub aliases : List Text
  pub description : Text
  pub repo_url : Option Text
  pub directory : Option Text
  pub workspace_path : Option Text
  pub default_branch : Option Text
  pub resources : List Resource
  pub memory_ids : List Text

pub record Project : Type 0 where
  pub id : Text
  pub details : Details
  pub is_archived : Bool
  pub created_at : Text
  pub updated_at : Text
  pub last_opened_at : Option Text

-- An input; `none` is an absent field.
pub record Draft : Type 0 where
  pub id : Option Json
  pub name : Option Json
  pub aliases : Option Json
  pub description : Option Json
  pub repo_url : Option Json
  pub directory : Option Json
  pub workspace_path : Option Json
  pub default_branch : Option Json
  pub resources : Option Json
  pub memory_ids : Option Json

abbrev pub resolved_if : (Text → Text → Text) → Option Text → Option Text
resolved_if resolve none = none
resolved_if resolve (some s) = some (resolve [] s)

abbrev pub slug_if : (Text → Text) → Option Text → Option Text
slug_if to_lower none = none
slug_if to_lower (some s) = some (slugify to_lower s [])

-- `_validate`, without the id; `none` is the error name_required.
unfoldable pub validate : (Text → Text) → (Text → Text → Text) → Draft → Option Details
unfolding slugify normalize_aliases normalize_resources
validate to_lower resolve d =
    let name = trimmed d.name in
    if is_empty name
    then none
    else some (record {
      name = name;
      aliases = normalize_aliases d.aliases;
      description = trimmed d.description;
      repo_url = trimmed_if d.repo_url;
      directory = slug_if to_lower (string_if d.directory);
      workspace_path = resolved_if resolve (string_if d.workspace_path);
      default_branch = trimmed_if d.default_branch;
      resources = normalize_resources d.resources;
      memory_ids = full_texts (array_items d.memory_ids);
    })

-- The id of a new project that the input asks for: `none` where there is none or nothing is left.
unfoldable pub asked_id : (Text → Text) → Draft → Option Text
unfolding slugify
asked_id to_lower d = elim (slug_if to_lower (string_if d.id)) [
  | none ↦ none
  | some s ↦ non_empty s
]

-- `s.endsWith("/")`
unfoldable pub ends_in_slash : Text → Bool
ends_in_slash [] = false
ends_in_slash (c ∷ []) = c == 47
ends_in_slash (c ∷ d ∷ s) = ends_in_slash (d ∷ s)

abbrev pub prefix_of : Text → Text
prefix_of root = if ends_in_slash root then root else root ++ lit "/"

-- createSafeJoin, where the separator is `/`; `none` is an exception.
unfoldable pub safe_join : (Text → Text → Text) → Text → Text → Option Text
unfolding ends_in_slash
safe_join resolve root_dir path =
    let root = resolve [] root_dir in
    let full = resolve root path in
    if is_empty (trim path)
    then none
    else if not (text_eq full root) && not (starts_with (prefix_of root) full)
    then none
    else some full
