-- ===== src/Repository.antt =====
-- The repository of task records, src/runtime/jsonTaskRepository.js: names that are safe as files, the
-- queue of saves and deletions, and the loading of all records. A file is named relative to the
-- directory of the repository; what a file call does, and whether it fails, is an argument.
pub mod Names
pub mod Refinement
use ender.Prelude.{
  ℕ, Bool, true, false, ◌||◌, List, [], ◌∷◌, ◌++◌, Option, none, some, Text, lit, trim, text_eq,
  is_empty, has_unit, length, ltb, not, keep, map, take, drop, ◌-◌, Map, lookup, insert, remove,
  if◌then◌else◌,
}
use ender.Json.{Json, object}

-- assertSafeTaskId; `none` is the exception. `base_name` is path.basename.
unfoldable pub safe_id : (Text → Text) → Text → Option Text
safe_id base_name id =
    let value = trim id in
    if is_empty value
      || ltb 200 (length value)
      || text_eq value (lit ".")
      || text_eq value (lit "..")
      || has_unit 47 value
      || has_unit 92 value
      || has_unit 0 value
      || not (text_eq (base_name value) value)
    then none
    else some value

-- `_taskFile`, and the temporary file beside it.
unfoldable pub target : Text → Text
target id = id ++ lit ".json"

unfoldable pub temp : Text → Text
unfolding target
temp id = target id ++ lit ".tmp"

-- The calls of node:fs/promises that change files.
pub data FileCall : Type 0 where
  make_dir : FileCall
  write_file : Text → Text → FileCall
  rename_file : Text → Text → FileCall
  remove_file : Text → FileCall

-- How a call ends: it is done, it fails and changes nothing, or it fails having written a part.
pub data Ending : Type 0 where
  completed : Ending
  fails : Ending
  torn : Text → Ending

abbrev pub move : Text → Text → Map Text → Option Text → Map Text × Bool
move from to files none = (files, false)
move from to files (some s) = (insert to s (remove from files), true)

-- The files after a call, and whether it succeeded. A rename needs its source; a removal with `force`
-- does not.
unfoldable pub perform : FileCall → Ending → Map Text → Map Text × Bool
perform make_dir completed files = (files, true)
perform make_dir _ files = (files, false)
perform (write_file name s) completed files = (insert name s files, true)
perform (write_file name s) fails files = (files, false)
perform (write_file name s) (torn part) files = (insert name part files, false)
perform (rename_file from to) completed files = move from to files (lookup from files)
perform (rename_file from to) _ files = (files, false)
perform (remove_file name) completed files = (remove name files, true)
perform (remove_file name) _ files = (files, false)

-- One operation of the queue: its calls one after the other, up to the first that fails. Where the
-- endings run out the program was killed.
unfoldable pub run_calls : List FileCall → List Ending → Map Text → Map Text
unfolding perform
run_calls [] es files = files
run_calls (c ∷ cs) [] files = files
run_calls (c ∷ cs) (e ∷ es) files =
    let (files', succeeded) = perform c e files in
    let rest = run_calls cs es files' in if succeeded then rest else files'

-- What is put on the queue, with an id that is safe.
pub data Request : Type 0 where
  save : Text → Text → Request
  delete : Text → Request

-- `save` and `delete`: the calls that the operation makes.
unfoldable pub calls_of : Request → List FileCall
unfolding temp
calls_of (save id snapshot) =
    make_dir ∷ write_file (temp id) snapshot ∷ rename_file (temp id) (target id) ∷ []
calls_of (delete id) = remove_file (temp id) ∷ remove_file (target id) ∷ []

-- `save`, up to the queue; `none` is an exception. `stringify` is JSON.stringify.
unfoldable pub save_request : (Text → Text) → (Json → Text) → Text → Json → Option Request
save_request base_name stringify id (object fs) = elim (safe_id base_name id) [
  | none ↦ none
  | some value ↦ some (save value (stringify (object fs)))
]
save_request base_name stringify id _ = none

-- `delete`, up to the queue.
unfoldable pub delete_request : (Text → Text) → Text → Option Request
delete_request base_name id = elim (safe_id base_name id) [
  | none ↦ none
  | some value ↦ some (delete value)
]

-- `_enqueue`: the operations run one after the other, whether or not those before failed.
unfoldable pub run_queue : List (Request × List Ending) → Map Text → Map Text
unfolding run_calls calls_of
run_queue [] files = files
run_queue ((r, es) ∷ q) files = run_queue q (run_calls (calls_of r) es files)

abbrev pub ends_in_json : Text → Bool
ends_in_json name = text_eq (drop (length name - 5) name) (lit ".json")

-- What `loadAll` gives for a file.
pub record Loaded : Type 0 where
  pub task_id : Text
  pub parsed : Option Json  -- `none`: an unsafe name, or a text that is not JSON

abbrev pub parsed_if : (Text → Option Json) → Option Text → Text → Option Json
parsed_if parse none s = none
parsed_if parse (some id) s = parse s

abbrev pub load_file : (Text → Text) → (Text → Option Json) → Text × Text → Loaded
load_file base_name parse (name, s) =
    let id = take (length name - 5) name in
    record { task_id = id; parsed = parsed_if parse (safe_id base_name id) s }

-- `loadAll`; `sort` is the sort by name.
unfoldable pub load_all :
    (Text → Text)
    → (Text → Option Json)
    → (List (Text × Text) → List (Text × Text))
    → Map Text
    → List Loaded
unfolding safe_id
load_all base_name parse sort files =
    map (load_file base_name parse) (sort (keep (λ (f : Text × Text). ends_in_json f.0) files))
