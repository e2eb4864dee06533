-- ===== src/Tests/Recall.antt =====
-- Tests of the memories.
use mathlib.Core.List.{Memᴰ}
use mathlib.Core.List.Memᴰ.{head}
use ender.Prelude.{
  ℕ, false, [], ◌∷◌, none, some, Text, lit, trim, is_space, text_eq, lookup, length, ◌≤◌, Map,
  values, All, ◌≡◌, refl, ◌⊎◌,
}
use ender.Memories.{Memory, active, fact, Scope, LoadPolicy}
use ender.Memories.Search.{Filters, Scored, found, candidates, is_before, search_limit}
use ender.Memories.Pack.{PackTask, project_of, pack_items}
use ender.Memories.Isolation.{IsShowing, pack_items_isolates}
use ender.Memories.Ranking.{found_best}

abbrev plain : Text → Text
plain s = s

abbrev always : Text → ℕ
always s = 0

abbrev tip : Memory
tip = record {
  id = lit "m1";
  value = record {
    scope = Scope.project;
    kind = fact;
    title = lit "Port";
    body = lit "8080";
    project_id = some (lit "p1");
    thread_id = none;
    tags = [];
    load_policy = LoadPolicy.auto;
    confidence = none;
  };
  status = active;
  created_at = lit "1";
  updated_at = lit "1";
}

abbrev known : Map Memory
known = (lit "m1", tip) ∷ []

abbrev caller : PackTask
caller = record {
  id = lit "t1";
  project_id = some (lit "p1");
  latest_prompt = [];
  goal = lit "port";
}

caller_project : project_of (some caller) none ≡ some (lit "p1")
unfolding project_of lit
caller_project = refl

p1_trimmed : trim (lit "p1") ≡ lit "p1"
unfolding trim is_space lit
p1_trimmed = refl

pack_items_isolates_example :
    All
      (IsShowing (some caller) (lit "p1") (values known))
      (pack_items plain always (some caller) none known)
pack_items_isolates_example =
    pack_items_isolates plain always (some caller) none (lit "p1") known caller_project p1_trimmed

abbrev all_of_p1 : Filters
all_of_p1 = record {
  query = [];
  project_id = some (lit "p1");
  thread_id = none;
  scope = none;
  includes_archived = false;
  limit = none;
}

abbrev tip_scored : Scored
tip_scored = record { memory = tip; score = 1 }

tip_matches : Memᴰ tip_scored (candidates plain always all_of_p1 known)
unfolding candidates lit text_eq
tip_matches = head refl

found_best_example :
    (Memᴰ tip_scored (found plain always all_of_p1 known)
      ⊎ (All (λ x. is_before plain always tip_scored x ≡ false) (found plain always all_of_p1 known)
          × (length (found plain always all_of_p1 known) ≡ search_limit none)))
    × (length (found plain always all_of_p1 known) ≤ search_limit none)
    × (1 ≤ search_limit none)
    × (search_limit none ≤ 200)
found_best_example = found_best plain always all_of_p1 known tip_scored tip_matches

tip_found : lookup (trim (lit "m1")) known ≡ some tip
unfolding lookup trim is_space lit text_eq
tip_found = refl

tip_id : lit "m1" ≡ trim (lit "m1")
unfolding trim is_space lit
tip_id = refl
