-- ===== src/Tests/Workspaces.antt =====
-- Tests of the projects and of their directories.
use ender.Prelude.{
  keep, true, false, ◌++◌, List, [], ◌∷◌, none, some, Text, lit, is_space, text_eq, trim, lookup,
  All, ◌≡◌, refl,
}
use ender.Paths.{IsPlain, names}
use ender.Tests.Paths.{cleaned, cleaned-IsPlain}
use ender.Projects.{Project, Draft, is_slug}
use ender.Projects.Manager.{Projects}
use ender.Projects.Workspace.{Disk, ensure_workspace}
use ender.Projects.Places.{IsInside, place_in, ensure_workspace_stays}
use ender.Projects.Ids.{AreSafe, Call, creates, archives, DrawsSlug, after_all, after_all-AreSafe}
use ender.Json.{string}

abbrev plain : Text → Text
plain s = s

-- An empty first path is none.
abbrev below : Text → Text → Text
below [] path = cleaned path
below (c ∷ root) path = cleaned ((c ∷ root) ++ lit "/" ++ path)

below-IsPlain : (a b : Text) → IsPlain (below a b)
below-IsPlain [] b = cleaned-IsPlain b
below-IsPlain (c ∷ a) b = cleaned-IsPlain ((c ∷ a) ++ lit "/" ++ b)

abbrev second : Text → Text → Text
second a b = b

abbrev site : Project
site = record {
  id = lit "site";
  details = record {
    name = lit "site";
    aliases = [];
    description = [];
    repo_url = none;
    directory = some (lit "site");
    workspace_path = none;
    default_branch = none;
    resources = [];
    memory_ids = [];
  };
  is_archived = false;
  created_at = lit "1";
  updated_at = lit "1";
  last_opened_at = none;
}

abbrev one_project : Projects
one_project = record { items = (lit "site", site) ∷ []; files = [] }

abbrev disk : Disk
disk = record {
  exists = λ path. true;
  is_directory = λ path. true;
  has_git = λ path. true;
  origin = λ path. none;
  clones = λ root url directory. false;
}

site_found : lookup (trim (lit "site")) one_project.items ≡ some site
unfolding lookup trim is_space lit text_eq
site_found = refl

site_place :
    place_in
      (ensure_workspace plain plain below second
        (lit "/w")
        disk
        (lit "2")
        (lit "site")
        one_project).1
    ≡ some (lit "/w/site")
unfolding ensure_workspace lookup trim is_space lit text_eq names keep
site_place = refl

ensure_workspace_stays_example : IsInside (below [] (lit "/w")) (lit "/w/site")
ensure_workspace_stays_example =
    ensure_workspace_stays plain plain below second (lit "/w") disk (lit "2") (lit "site")
      (lit "/w/site") site one_project below-IsPlain site_found refl site_place

abbrev asked : Draft
asked = record {
  id = none;
  name = some (string (lit "../My Site"));
  aliases = none;
  description = none;
  repo_url = none;
  directory = none;
  workspace_path = none;
  default_branch = none;
  resources = none;
  memory_ids = none;
}

abbrev calls : List Call
calls = creates (lit "1") (lit "ab" ∷ []) asked ∷ archives (lit "2") (lit "site") ∷ []

draws_slug : All (DrawsSlug plain below) calls
unfolding is_slug lit
draws_slug = ((((refl, (refl, tt)), tt)), (tt, tt))

site_safe : AreSafe one_project.items
unfolding is_slug lit
site_safe = ((refl, (refl, (refl, (refl, tt)))), tt)

after_all-AreSafe_example : AreSafe (after_all plain below calls one_project).items
after_all-AreSafe_example = after_all-AreSafe plain below calls one_project draws_slug site_safe
