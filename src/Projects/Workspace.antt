-- ===== src/Projects/Workspace.antt =====
-- `ensureWorkspace` of src/runtime/projectManager.js: the directory in which a project's tasks work.
use ender.Prelude.{
  Bool, not, ◌&&◌, [], Option, none, some, Text, lit, is_empty, text_eq, trim, lookup,
  if◌then◌else◌,
}
use ender.Projects.{Project, safe_join, default_directory}
use ender.Projects.Manager.{Projects, save_project, serialize_project, cleaned_path}

-- What is on disk, what git answers there, and whether a clone succeeds: of the repository, in the
-- directory below the root.
pub record Disk : Type 0 where
  pub exists : Text → Bool
  pub is_directory : Text → Bool
  pub has_git : Text → Bool
  pub origin : Text → Option Text  -- `git remote get-url origin`; `none` where it fails
  pub clones : Text → Text → Text → Bool

pub data WorkspaceReply : Type 0 where
  opened : Text → WorkspaceReply
  cloned : Text → WorkspaceReply
  refused : Text → WorkspaceReply

-- `_checkRemote`; `none` is no objection.
unfoldable pub check_remote : Disk → Text → Option Text → Option Text
check_remote disk path url = elim (cleaned_path url) [
  | none ↦ none
  | some u ↦
      if not (disk.has_git path)
      then some (lit "workspace_not_git_repo")
      else elim (disk.origin path) [
        | none ↦ some (lit "remote_check_failed")
        | some out ↦
            if not (is_empty (trim out)) && not (text_eq (trim out) u)
            then some (lit "remote_mismatch")
            else none
      ]
]

module _ (to_lower base_name : Text → Text) (resolve relative : Text → Text → Text)
    (root_dir : Text) where
  abbrev pub directory_of : Project → Text
  directory_of p = elim (cleaned_path p.details.directory) [
    | none ↦ default_directory to_lower base_name p.details.repo_url p.details.name
    | some d ↦ d
  ]

  abbrev pub path_from : Project → Option Text → Option Text
  path_from p none = safe_join resolve root_dir (directory_of p)
  path_from p (some w) = some (resolve [] w)

  -- `_resolveWorkspacePath`; `none` is the error invalid_workspace.
  unfoldable pub workspace_path : Project → Option Text
  unfolding safe_join default_directory
  workspace_path p = path_from p (cleaned_path p.details.workspace_path)

  abbrev pub opened_at : Text → Text → Project → Project
  opened_at now path p = record p {
    details = record p.details { workspace_path = some path };
    last_opened_at = some now;
    updated_at = now;
  }

  abbrev pub open_if : Text → Text → Project → Projects → Option Text → Projects × WorkspaceReply
  open_if now path p s none = (save_project (opened_at now path p) s, opened path)
  open_if now path p s (some e) = (s, refused e)

  abbrev pub open_existing : Disk → Text → Text → Project → Projects → Projects × WorkspaceReply
  open_existing disk now path p s =
      if disk.is_directory path
      then open_if now path p s (check_remote disk path p.details.repo_url)
      else (s, refused (lit "workspace_not_directory"))

  abbrev pub clone_if :
      Disk → Text → Text → Project → Projects → Option Text → Projects × WorkspaceReply
  clone_if disk now path p s none = (s, refused (lit "repo_url_required"))
  clone_if disk now path p s (some u) =
      let root = resolve [] root_dir in
      if disk.clones root u (relative root path)
      then (save_project (opened_at now path p) s, cloned path)
      else (s, refused (lit "clone_failed"))

  abbrev pub ensure_at : Disk → Text → Project → Projects → Option Text → Projects × WorkspaceReply
  ensure_at disk now p s none = (s, refused (lit "invalid_workspace"))
  ensure_at disk now p s (some path) =
      if disk.exists path
      then open_existing disk now path p s
      else clone_if disk now path p s (cleaned_path p.details.repo_url)

  abbrev pub ensure_known : Disk → Text → Projects → Option Project → Projects × WorkspaceReply
  ensure_known disk now s none = (s, refused (lit "not_found"))
  ensure_known disk now s (some p) = ensure_at disk now p s (workspace_path p)

  -- `ensureWorkspace`
  unfoldable pub ensure_workspace : Disk → Text → Text → Projects → Projects × WorkspaceReply
  unfolding workspace_path check_remote serialize_project
  ensure_workspace disk now id s = ensure_known disk now s (lookup (trim id) s.items)
