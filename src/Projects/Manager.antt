-- ===== src/Projects/Manager.antt =====
-- The calls of the project manager, src/runtime/projectManager.js. Each call writes the record of the
-- project that it changes. What is on disk and what git answers is a `Disk`.
use ender.Prelude.{
  Bool, true, false, not, ◌&&◌, List, [], ◌∷◌, ◌++◌, Option, none, some, Text, lit, text_eq, trim,
  take, any_of, map, Map, insert, lookup, has, values, if◌then◌else◌,
}
use ender.Json.{Json, string, array, object, end, field, sanitize_string}
use ender.Json.Read.{items_of}
use ender.Memories.{cleaned_if}
use ender.Memories.Manager.{given_or, json_or_null}
use ender.Projects.{Project, Details, Draft, Resource, validate, asked_id, slugify}

pub record Projects : Type 0 where
  pub items : Map Project
  pub files : Map Project

pub data ProjectReply : Type 0 where
  stored : Project → ProjectReply
  refused : Text → ProjectReply
  stuck : ProjectReply  -- the generator's texts have run out

abbrev pub clean_resource : Resource → Resource
clean_resource r = record {
  kind = sanitize_string r.kind;
  label = sanitize_string r.label;
  url = cleaned_if r.url;
}

-- `_serialize`
unfoldable pub serialize_project : Project → Project
serialize_project p = record p {
  id = sanitize_string p.id;
  details = record {
    name = sanitize_string p.details.name;
    aliases = map sanitize_string p.details.aliases;
    description = sanitize_string p.details.description;
    repo_url = cleaned_if p.details.repo_url;
    directory = cleaned_if p.details.directory;
    workspace_path = cleaned_if p.details.workspace_path;
    default_branch = cleaned_if p.details.default_branch;
    resources = map clean_resource p.details.resources;
    memory_ids = map sanitize_string p.details.memory_ids;
  };
  created_at = sanitize_string p.created_at;
  updated_at = sanitize_string p.updated_at;
  last_opened_at = cleaned_if p.last_opened_at;
}

abbrev pub save_project : Project → Projects → Projects
save_project p s = record {
  items = insert p.id p s.items;
  files = insert p.id (serialize_project p) s.files;
}

abbrev pub texts_json : List Text → Json
texts_json ss = array (items_of (map string ss))

abbrev pub resource_json : Resource → Json
resource_json r = object (
    field (lit "kind") (string r.kind)
      (field (lit "label") (string r.label) (field (lit "url") (json_or_null r.url) end)))

-- `{ ...current, ...input, id: current.id }`
unfoldable pub merge_project : Draft → Project → Draft
merge_project d p = record {
  id = some (string p.id);
  name = given_or d.name (string p.details.name);
  aliases = given_or d.aliases (texts_json p.details.aliases);
  description = given_or d.description (string p.details.description);
  repo_url = given_or d.repo_url (json_or_null p.details.repo_url);
  directory = given_or d.directory (json_or_null p.details.directory);
  workspace_path = given_or d.workspace_path (json_or_null p.details.workspace_path);
  default_branch = given_or d.default_branch (json_or_null p.details.default_branch);
  resources = given_or d.resources (array (items_of (map resource_json p.details.resources)));
  memory_ids = given_or d.memory_ids (texts_json p.details.memory_ids);
}

-- `archive`
abbrev pub archive_found : Text → Projects → Option Project → Projects × ProjectReply
archive_found now s none = (s, refused (lit "not_found"))
archive_found now s (some p) =
    let q = record p { is_archived = true; updated_at = now } in
    (save_project q s, stored (serialize_project q))

unfoldable pub archive_project : Text → Text → Projects → Projects × ProjectReply
unfolding serialize_project
archive_project now id s = archive_found now s (lookup (trim id) s.items)

-- The ids that the loop of `_createId` tries after its base; `none`: the drawn texts have run out.
unfoldable pub numbered_id : Text → List Text → Map Project → Option Text
numbered_id base [] m = none
numbered_id base (u ∷ us) m =
    let rest = numbered_id base us m in
    let id = base ++ lit "-" ++ take 8 u in if has id m then rest else some id

-- A path that is there and not empty.
abbrev pub cleaned_path : Option Text → Option Text
cleaned_path none = none
cleaned_path (some []) = none
cleaned_path (some (c ∷ s)) = some (c ∷ s)

module _ (to_lower : Text → Text) (resolve : Text → Text → Text) where
  -- `_createId`, over what randomUUID gives.
  unfoldable pub create_id : Text → List Text → Map Project → Option Text
  unfolding numbered_id slugify
  create_id name drawn m =
      let base = slugify to_lower name (lit "project") in
      if has base m then numbered_id base drawn m else some base

  abbrev pub create_as : Text → Details → Projects → Option Text → Projects × ProjectReply
  create_as now v s none = (s, stuck)
  create_as now v s (some id) =
      let p : Project = record {
        id = id;
        details = v;
        is_archived = false;
        created_at = now;
        updated_at = now;
        last_opened_at = none;
      } in
      if has id s.items
      then (s, refused (lit "project_exists"))
      else (save_project p s, stored (serialize_project p))

  abbrev pub id_for : Text → List Text → Map Project → Option Text → Option Text
  id_for name drawn m (some id) = some id
  id_for name drawn m none = create_id name drawn m

  abbrev pub create_checked :
      Text → List Text → Draft → Projects → Option Details → Projects × ProjectReply
  create_checked now drawn d s none = (s, refused (lit "name_required"))
  create_checked now drawn d s (some v) =
      create_as now v s (id_for v.name drawn s.items (asked_id to_lower d))

  -- `create`
  unfoldable pub create_project : Text → List Text → Draft → Projects → Projects × ProjectReply
  unfolding validate asked_id create_id serialize_project
  create_project now drawn d s = create_checked now drawn d s (validate to_lower resolve d)

  abbrev pub update_as : Text → Project → Projects → Option Details → Projects × ProjectReply
  update_as now p s none = (s, refused (lit "name_required"))
  update_as now p s (some v) =
      let q = record p { details = v; updated_at = now } in
      (save_project q s, stored (serialize_project q))

  abbrev pub update_stored : Text → Draft → Projects → Option Project → Projects × ProjectReply
  update_stored now d s none = (s, refused (lit "not_found"))
  update_stored now d s (some p) = update_as now p s (validate to_lower resolve (merge_project d p))

  -- `update`
  unfoldable pub update_project : Text → Text → Draft → Projects → Projects × ProjectReply
  unfolding validate merge_project serialize_project
  update_project now id d s = update_stored now d s (lookup (trim id) s.items)

  abbrev pub owns : Text → Project → Bool
  owns path p = elim (cleaned_path p.details.workspace_path) [
    | none ↦ false
    | some w ↦ not p.is_archived && text_eq (resolve [] w) path
  ]

  -- `ownsWorkspace`
  unfoldable pub owns_workspace : Text → Projects → Bool
  owns_workspace path s = any_of (owns (resolve [] path)) (values s.items)
