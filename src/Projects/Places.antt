-- ===== src/Projects/Places.antt =====
-- Where the directory of a project may lie, `ensureWorkspace` of src/runtime/projectManager.js.
use mathlib.Core.Path.{subst}
use ender.Prelude.{
  Bool, List, ◌∷◌, ◌++◌, lit, refl, if◌then◌else◌, true, false, not, [], ◌&&◌, Option, none, some,
  Text, is_empty, trim, text_eq, text_eq→eq, starts_with, lookup, if-holds, Bool-cases, ◌≡◌, sym,
  ◌∙◌, inl, inr, arith, ap,
}
use ender.Paths.{
  names, Lies, IsPlain, slash, starts_with-rest, Lies-at, Lies-below, append_slash, names-slash_end,
}
use ender.Projects.{Project, safe_join, prefix_of, ends_in_slash}
use ender.Projects.Manager.{Projects, cleaned_path}
use ender.Projects.Workspace.{
  Disk, WorkspaceReply, opened, cloned, refused, check_remote, directory_of, path_from,
  workspace_path, open_if, clone_if, ensure_at, ensure_known, ensure_workspace,
}

-- The directory that a reply gives.
abbrev pub place_in : WorkspaceReply → Option Text
place_in (opened path) = some path
place_in (cloned path) = some path
place_in (refused e) = none

-- The path is the root, or names directories below it and takes no step back.
abbrev pub IsInside : Text → Text → Type 0
IsInside root path = (rest : List Text) × Lies root path rest

GivesOnly : Text → Projects × WorkspaceReply → Type 0
GivesOnly path r = (x : Text) → place_in r.1 ≡ some x → path ≡ x

Joins : Text → Option Text → Type 0
Joins root o = (x : Text) → o ≡ some x → IsInside root x

ends_in_slash-split : (s : Text) → ends_in_slash s ≡ true → (r : Text) × (s ≡ r ++ slash)
unfolding ends_in_slash text_eq lit
ends_in_slash-split [] h = absurd cc
ends_in_slash-split (c ∷ []) h = let e : c ≡ 47 = ground arith in ([], cc e)
ends_in_slash-split (c ∷ d ∷ s) h =
    let (r, e) = ends_in_slash-split (d ∷ s) h in (c ∷ r, ap (λ t. c ∷ t) e)

prefixed-IsInside :
    (root path : Text) (b : Bool)
    → ends_in_slash root ≡ b
    → IsPlain path
    → starts_with (if b then root else root ++ slash) path ≡ true
    → IsInside root path
prefixed-IsInside root path false e p h =
    let (r, k) = starts_with-rest (root ++ slash) path h in
    (names r, Lies-below root path r (k ∙ append_slash root r) p)
prefixed-IsInside root path true e p h =
    let (r, k) = starts_with-rest root path h in
    let (s, q) = ends_in_slash-split root e in
    let l = Lies-below s path r (k ∙ (ap (λ t. t ++ r) q ∙ append_slash s r)) p in
    (
      names r,
      record {
        below = l.below ∙ ap (λ ns. ns ++ names r) (sym (ap names q ∙ names-slash_end s));
        plain = p;
      },
    )

joined-IsInside :
    (root full x : Text)
    → IsPlain full
    → (not (text_eq full root) && not (starts_with (prefix_of root) full)) ≡ false
    → some full ≡ some x
    → IsInside root x
unfolding lit
joined-IsInside root full x p h e = elim (Bool-cases (text_eq full root)) [
  | inl same ↦ subst (IsInside root) is_x ([], Lies-at root full (text_eq→eq full root same) p)
  | inr other ↦
      let inside : starts_with (prefix_of root) full ≡ true = ground arith in
      subst (IsInside root) is_x (prefixed-IsInside root full (ends_in_slash root) refl p inside)
]
  where
    is_x : full ≡ x
    is_x = cc e

safe_join-IsInside :
    (resolve : Text → Text → Text) (root path : Text)
    → ((a b : Text) → IsPlain (resolve a b))
    → Joins (resolve [] root) (safe_join resolve root path)
unfolding safe_join Joins
safe_join-IsInside resolve root path plain =
    if-holds (Joins (resolve [] root)) (is_empty (trim path)) none _ (λ _ x e. absurd cc)
      (λ _.
        if-holds (Joins (resolve [] root)) _ none (some (resolve (resolve [] root) path))
          (λ _ x e. absurd cc)
          (λ h x e.
            joined-IsInside (resolve [] root) (resolve (resolve [] root) path) x
              (plain (resolve [] root) path) h e))

module _ (to_lower base_name : Text → Text) (resolve relative : Text → Text → Text)
    (root_dir : Text) where
  open_if-GivesOnly :
      (now path : Text) (p : Project) (s : Projects) (o : Option Text)
      → GivesOnly path (open_if to_lower base_name resolve relative root_dir now path p s o)
  unfolding GivesOnly
  open_if-GivesOnly now path p s none x e = cc
  open_if-GivesOnly now path p s (some m) x e = absurd cc

  clone_if-GivesOnly :
      (disk : Disk) (now path : Text) (p : Project) (s : Projects) (o : Option Text)
      → GivesOnly path (clone_if to_lower base_name resolve relative root_dir disk now path p s o)
  unfolding GivesOnly
  clone_if-GivesOnly disk now path p s none x e = absurd cc
  clone_if-GivesOnly disk now path p s (some u) x e =
      if-holds (GivesOnly path)
        (disk.clones (resolve [] root_dir) u (relative (resolve [] root_dir) path)) _ _
        (λ _ x e. cc) (λ _ x e. absurd cc) x e

  ensure_at-GivesOnly :
      (disk : Disk) (now path : Text) (p : Project) (s : Projects)
      → GivesOnly path
          (ensure_at to_lower base_name resolve relative root_dir disk now p s (some path))
  unfolding GivesOnly
  ensure_at-GivesOnly disk now path p s =
      if-holds (GivesOnly path) (disk.exists path) _ _
        (λ _.
          if-holds (GivesOnly path) (disk.is_directory path) _ _
            (λ _. open_if-GivesOnly now path p s (check_remote disk path p.details.repo_url))
            (λ _ x e. absurd cc))
        (λ _. clone_if-GivesOnly disk now path p s (cleaned_path p.details.repo_url))

  path-IsInside :
      (p : Project)
      → ((a b : Text) → IsPlain (resolve a b))
      → cleaned_path p.details.workspace_path ≡ none
      → Joins (resolve [] root_dir) (workspace_path to_lower base_name resolve relative root_dir p)
  unfolding workspace_path
  path-IsInside p plain h =
      subst
        (λ o.
          Joins (resolve [] root_dir) (path_from to_lower base_name resolve relative root_dir p o))
        (sym h)
        (safe_join-IsInside resolve root_dir
          (directory_of to_lower base_name resolve relative root_dir p) plain)

  ensure_at-IsInside :
      (disk : Disk) (now : Text) (p : Project) (s : Projects) (o : Option Text)
      → Joins (resolve [] root_dir) o
      → Joins
          (resolve [] root_dir)
          (place_in (ensure_at to_lower base_name resolve relative root_dir disk now p s o).1)
  unfolding Joins GivesOnly
  ensure_at-IsInside disk now p s none h x e = absurd cc
  ensure_at-IsInside disk now p s (some path) h x e =
      h x (ap some (ensure_at-GivesOnly disk now path p s x e))

  -- The directory that ensureWorkspace opens or clones into, for a project without a path of its own,
  -- is the working directory or is named by directories below it with no step back, whatever the
  -- project's names and URL are, given that path.resolve leaves no `.` and no `..` in what it returns.
  pub ensure_workspace_stays :
      (disk : Disk) (now id path : Text) (p : Project) (s : Projects)
      → ((a b : Text) → IsPlain (resolve a b))
      → lookup (trim id) s.items ≡ some p
      → cleaned_path p.details.workspace_path ≡ none
      → place_in (ensure_workspace to_lower base_name resolve relative root_dir disk now id s).1
        ≡ some path
      → IsInside (resolve [] root_dir) path
  unfolding ensure_workspace Joins
  ensure_workspace_stays disk now id path p s plain known unset e =
      ensure_at-IsInside disk now p s
        (workspace_path to_lower base_name resolve relative root_dir p)
        (path-IsInside p plain unset) path
        (ap
            (λ o.
              place_in (ensure_known to_lower base_name resolve relative root_dir disk now s o).1)
            (sym known)
          ∙ e)
