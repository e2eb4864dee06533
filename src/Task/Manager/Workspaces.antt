-- ===== src/Task/Manager/Workspaces.antt =====
-- When `delete` of src/runtime/taskManager.js removes a directory.
use ender.Prelude.{
  Bool, List, Option, none, true, false, some, Text, ◌∷◌, [], text_eq_iff, is_empty, Map, lookup,
  ◌≡◌, ◌≢◌, arith,
}
use ender.Paths.{Lies}
use ender.Task.Record.{World}
use ender.Task.Host.{Host}
use ender.Task.Delete.{removes, workspace_verdict, can_delete_workspace, in_use_by_other}

not_in_use :
    (host : Host) (id path : Text) (m : Map World) (k : Text) (w : World)
    → in_use_by_other host id path m ≡ false
    → lookup k m ≡ some w
    → k ≢ id
    → is_empty w.task.workspace ≡ false
    → host.resolve w.task.workspace ≢ host.resolve path
unfolding in_use_by_other lookup
not_in_use host id path [] k w h l n e = cc
not_in_use host id path ((j, v) ∷ m) k w h l n e = ground (
  arith,
  not_in_use host id path m k w,
  text_eq_iff j k,
  text_eq_iff j id,
  text_eq_iff (host.resolve v.task.workspace) (host.resolve path),
)

removes_tests :
    (host : Host) (wanted : Bool) (id workspace : Text) (tasks : Map World)
    → workspace_verdict host wanted id workspace tasks ≡ removes
    → (wanted ≡ true)
      × (can_delete_workspace host (host.resolve workspace) ≡ true)
      × (host.owns_workspace (host.resolve workspace) ≡ false)
      × (in_use_by_other host id (host.resolve workspace) tasks ≡ false)
unfolding workspace_verdict
removes_tests host wanted id workspace tasks h = ground arith

-- The workspace base is another directory, if there is one.
abbrev pub IsOtherThan : Host → Option Text → Text → Type 0
IsOtherThan host none path = Unit
IsOtherThan host (some []) path = Unit
IsOtherThan host (some (c ∷ s)) path = path ≢ host.resolve (c ∷ s)

-- What is said of a directory by its text and by what path.resolve makes of that.
abbrev IsRemovable : Host → Text → Text → Type 0
IsRemovable host path resolved =
    (path ≢ host.root_of path)
    × IsOtherThan host host.workspace_base path
    × ((rest : List Text) × (rest ≢ []) × Lies (host.resolve host.workdir) resolved rest)

-- `delete` never removes the directory that another task, still in the map, works in.
pub removes_spares_others :
    (host : Host) (wanted : Bool) (id workspace : Text) (tasks : Map World) (k : Text) (w : World)
    → workspace_verdict host wanted id workspace tasks ≡ removes
    → lookup k tasks ≡ some w
    → k ≢ id
    → is_empty w.task.workspace ≡ false
    → host.resolve w.task.workspace ≢ host.resolve (host.resolve workspace)
removes_spares_others host wanted id workspace tasks k w h =
    let (asked, allowed, owned, used) = removes_tests host wanted id workspace tasks h in
    not_in_use host id (host.resolve workspace) tasks k w used
