-- ===== src/Task/Delete.antt =====
-- `delete` of src/runtime/taskManager.js, with the rules on removing a workspace.
use ender.Prelude.{
  Bool, false, not, ◌&&◌, ◌||◌, [], ◌∷◌, Option, none, some, Text, lit, text_eq, is_empty, keep,
  Map, lookup, remove, if◌then◌else◌,
}
use ender.Task.Record.{World, Env}
use ender.Task.Publish.{schedule_persist}
use ender.Task.Calls.{Reply, delete_task}
use ender.Task.Host.{Host}
use ender.Task.Manager.{Manager, update_task}

-- `relative.startsWith("..")`
abbrev pub starts_with_dots : Text → Bool
starts_with_dots (a ∷ b ∷ s) = text_eq (a ∷ b ∷ []) (lit "..")
starts_with_dots _ = false

-- `_isWorkspaceChildOfRoot`
unfoldable pub is_child_of_root : Host → Text → Bool
is_child_of_root host path =
    let relative = host.relative (host.resolve host.workdir) (host.resolve path) in
    not (is_empty relative) && not (starts_with_dots relative) && not (host.is_absolute relative)

abbrev pub is_base : Host → Text → Option Text → Bool
is_base host target none = false
is_base host target (some []) = false
is_base host target (some (c ∷ s)) = text_eq target (host.resolve (c ∷ s))

-- `_canDeleteWorkspace`
unfoldable pub can_delete_workspace : Host → Text → Bool
unfolding is_child_of_root
can_delete_workspace host path =
    let target = host.resolve path in
    if text_eq target (host.root_of target)
    then false
    else if text_eq target (host.resolve host.workdir)
    then false
    else if is_base host target host.workspace_base
    then false
    else is_child_of_root host target

-- `_isWorkspaceInUseByOtherTask`
unfoldable pub in_use_by_other : Host → Text → Text → Map World → Bool
in_use_by_other host id path [] = false
in_use_by_other host id path ((k, w) ∷ m) =
    (not (text_eq k id)
      && not (is_empty w.task.workspace)
      && text_eq (host.resolve w.task.workspace) (host.resolve path))
    || in_use_by_other host id path m

-- What `delete` does with the workspace; `removes` is the call of `fs.rm`.
pub data Verdict : Type 0 where
  not_attempted protected_workspace project_workspace still_in_use not_found removes : Verdict

unfoldable pub workspace_verdict : Host → Bool → Text → Text → Map World → Verdict
unfolding can_delete_workspace in_use_by_other
workspace_verdict host wanted id workspace tasks =
    let path = host.resolve workspace in
    if not wanted || is_empty workspace
    then not_attempted
    else if not (can_delete_workspace host path)
    then protected_workspace
    else if host.owns_workspace path
    then project_workspace
    else if in_use_by_other host id path tasks
    then still_in_use
    else if host.exists path
    then removes
    else not_found

abbrev pub drop_child : Text → World → World
drop_child id w = schedule_persist (record w {
  task = record w.task { child_task_ids = keep (λ c. not (text_eq c id)) w.task.child_task_ids };
})

unfoldable pub unlink_parent : Option Text → Text → Map World → Map World
unfolding update_task schedule_persist
unlink_parent none id m = m
unlink_parent (some []) id m = m
unlink_parent (some (c ∷ s)) id m = update_task (c ∷ s) (drop_child id) m

-- The task that is gone, as its running closures still see it, stands beside the manager.
pub record Deletion : Type 0 where
  pub manager : Manager
  pub gone : World
  pub reply : Reply
  pub workspace : Verdict

-- `delete`; `none` is the error `not_found`.
unfoldable pub delete_found : Env → Host → Text → Bool → Manager → World → Deletion
delete_found env host id wanted m w =
    let left = remove id (unlink_parent w.task.parent_task_id id m.tasks) in
    record {
      manager = record m { tasks = left };
      gone = (delete_task env w).0;
      reply = (delete_task env w).1;
      workspace = workspace_verdict host wanted id w.task.workspace left;
    }

unfoldable pub delete_by_id : Env → Host → Text → Bool → Manager → Option Deletion
unfolding delete_found
delete_by_id env host id wanted m = elim (lookup id m.tasks) [
  | none ↦ none
  | some w ↦ some (delete_found env host id wanted m w)
]
