-- ===== src/Memories/Pack.antt =====
-- What a task gets to know: `buildContextPack`, and the summary of a thread that `compactThread`
-- keeps, of src/runtime/memoryManager.js.
use ender.Prelude.{
  ℕ, Bool, true, false, not, ◌&&◌, ◌||◌, List, [], ◌∷◌, ◌++◌, Option, none, some, Text, lit,
  is_empty, is_space, trim, take, last_items, keep, map, text_or, text_of, join, Map, insert,
  values, if◌then◌else◌,
}
use ender.Json.{Json, string, array, sanitize_string}
use ender.Json.Read.{member, is_text, string_or, item_list}
use ender.Task.Record.{Message}
use ender.Memories.{Memory, Scope, LoadPolicy, auto, manual, off, serialize, scope_text, kind_text}
use ender.Memories.Search.{Filters, search, is_archived, is_pinned, is_global, same_id}

-- What the pack uses of the task and of the project; an absent task or project is `none`.
pub record PackTask : Type 0 where
  pub id : Text
  pub project_id : Option Text
  pub latest_prompt : Text
  pub goal : Text

pub record PackProject : Type 0 where
  pub id : Text
  pub name : Text
  pub repo_url : Text
  pub workspace_path : Text
  pub description : Text

pub record ContextPack : Type 0 where
  pub items : List Memory
  pub text : Text

abbrev pub or_id : Option Text → Option Text → Option Text
or_id (some (c ∷ s)) d = some (c ∷ s)
or_id _ (some (c ∷ s)) = some (c ∷ s)
or_id _ _ = none

-- `task?.projectId || project?.id || null`
unfoldable pub project_of : Option PackTask → Option PackProject → Option Text
project_of none none = none
project_of none (some p) = or_id none (some p.id)
project_of (some t) none = or_id t.project_id none
project_of (some t) (some p) = or_id t.project_id (some p.id)

-- `task?.latestPrompt || task?.goal || ""`
abbrev pub goal_of : Option PackTask → Text
goal_of none = []
goal_of (some t) = text_or t.latest_prompt t.goal

abbrev pub is_off : LoadPolicy → Bool
is_off off = true
is_off _ = false

abbrev pub is_manual : LoadPolicy → Bool
is_manual manual = true
is_manual _ = false

abbrev pub is_auto : LoadPolicy → Bool
is_auto auto = true
is_auto _ = false

abbrev pub is_of_thread : Scope → Bool
is_of_thread Scope.thread = true
is_of_thread _ = false

abbrev pub is_of_project : Scope → Bool
is_of_project Scope.project = true
is_of_project _ = false

-- `add`
unfoldable pub select : Memory → Map Memory → Map Memory
select m chosen =
    if is_archived m.status || is_off m.value.load_policy then chosen else insert m.id m chosen

abbrev pub of_task : Option PackTask → Option Text → Bool
of_task none source = false
of_task (some t) source = same_id source (some t.id)

-- The three tests of the first loop.
unfoldable pub is_chosen : Option PackTask → Option Text → Memory → Bool
is_chosen task p m =
    (is_pinned m.value.load_policy && (is_global m.value.scope || same_id m.value.project_id p))
    || (is_of_thread m.value.scope
        && of_task task m.value.thread_id
        && not (is_manual m.value.load_policy))
    || (is_of_project m.value.scope
        && not (is_empty (text_of p))
        && same_id m.value.project_id p
        && is_auto m.value.load_policy)

abbrev pub select_all : (Memory → Bool) → List Memory → Map Memory → Map Memory
select_all test [] chosen = chosen
select_all test (m ∷ ms) chosen = select_all test ms (if test m then select m chosen else chosen)

abbrev pub labelled : Text → Text → List Text
labelled label [] = []
labelled label (c ∷ s) = (label ++ c ∷ s) ∷ []

abbrev pub project_lines : Option PackProject → List Text
project_lines none = []
project_lines (some p) =
    (lit "Project: " ++ p.name) ∷ labelled (lit "Repo: ") p.repo_url
    ++ labelled (lit "Workspace: ") p.workspace_path
    ++ labelled (lit "Description: ") p.description

abbrev pub memory_line : Memory → Text
memory_line m =
    lit "- ["
    ++ m.id
    ++ lit "] "
    ++ scope_text m.value.scope
    ++ lit "/"
    ++ kind_text m.value.kind
    ++ lit ": "
    ++ m.value.title
    ++ lit "\n  "
    ++ m.value.body

abbrev pub memory_lines : List Memory → List Text
memory_lines [] = []
memory_lines (m ∷ ms) = lit "Memories:" ∷ map memory_line (m ∷ ms)

-- No filter but the project, and no more than six memories.
abbrev pub filters_for : Text → Option Text → Filters
filters_for goal p = record {
  query = trim goal;
  project_id = p;
  thread_id = none;
  scope = none;
  includes_archived = false;
  limit = some 6;
}

abbrev pub trim_if : Option Text → Option Text
trim_if none = none
trim_if (some s) = some (trim s)

abbrev pub goal_filters : Text → Option Text → Filters
goal_filters goal p = filters_for goal (trim_if p)

module _ (to_lower : Text → Text) (time_of : Text → ℕ) where
  -- The items of the pack.
  unfoldable pub pack_items : Option PackTask → Option PackProject → Map Memory → List Memory
  unfolding is_chosen select search project_of serialize
  pack_items task project ms =
      let p = project_of task project in
      let chosen = select_all (is_chosen task p) (values ms) [] in
      let hits = search to_lower time_of (goal_filters (goal_of task) p) ms in
      map serialize
        (take 12 (values (select_all (λ m. not (is_manual m.value.load_policy)) hits chosen)))

  -- `buildContextPack`, with the text of `memoryMode`.
  unfoldable pub build_context_pack :
      Option PackTask → Option PackProject → Json → Map Memory → ContextPack
  unfolding pack_items join
  build_context_pack task project mode ms =
      let items = pack_items task project ms in
      if is_text (lit "off") (some mode) || is_text (lit "manual") (some mode)
      then record { items = []; text = [] }
      else record {
        items = items;
        text = join (lit "\n") (project_lines project ++ memory_lines items);
      }

abbrev pub block_text : Json → Text
block_text b =
    if is_text (lit "text") (member (lit "type") b)
    then trim (sanitize_string (string_or (member (lit "text") b) []))
    else lit "[attachment]"

abbrev pub shown_texts : List Text → List Text
shown_texts = keep (λ (s : Text). not (is_empty s))

-- summarizeContent
unfoldable pub summarize_content : Json → Text
unfolding keep join
summarize_content (string s) = trim (sanitize_string s)
summarize_content (array xs) = join (lit " ") (shown_texts (map block_text (item_list xs)))
summarize_content _ = []

-- `s.replace(/\s+/g, " ")`; the flag says that the unit before was a space.
abbrev pub collapse : Bool → Text → Text
collapse after_space [] = []
collapse after_space (c ∷ s) =
    let rest = collapse true s in
    let more = c ∷ collapse false s in
    if is_space c then if after_space then rest else 32 ∷ rest else more

abbrev pub entry_line : Text → Text → Text
entry_line role [] = []
entry_line role (c ∷ s) = role ++ lit ": " ++ c ∷ s

abbrev pub summary_line : Message → Text
summary_line e =
    entry_line (text_or e.role (lit "user"))
      (take 800 (collapse false (summarize_content e.content)))

-- buildThreadSummary, with its default of 18 entries.
unfoldable pub build_thread_summary : List Message → Text
unfolding summarize_content keep join
build_thread_summary thread =
    join (lit "\n") (shown_texts (map summary_line (last_items 18 thread)))
