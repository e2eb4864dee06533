-- ===== src/Memories/Search.antt =====
-- The search of src/runtime/memoryManager.js: `search` with its filters, its score and its order.
-- `to_lower` is toLowerCase; `time_of` is the time that a stamp names.
use ender.Prelude.{
  ℕ, ◌+◌, Bool, true, false, not, ◌&&◌, ◌||◌, List, [], ◌∷◌, Option, none, some, Text, lit,
  is_empty, text_eq, length, take, keep, map, leb, ltb, ◌==◌, starts_with, join, Map, values,
  if◌then◌else◌,
}
use ender.Ledger.Normalize.{cons_head}
use ender.Memories.{
  Memory, Scope, scope_text, kind_text, LoadPolicy, pinned, Status, archived, active, serialize,
}

abbrev is_word : ℕ → Bool
is_word c = (leb 97 c && leb c 122) || (leb 48 c && leb c 57)

-- `s.split(/[^a-z0-9]+/)`, with an empty word between two separators.
abbrev pub words : Text → List Text
words [] = [] ∷ []
words (c ∷ s) = let rest = words s in if is_word c then cons_head rest (c ∷ []) else [] ∷ rest

-- tokenize
unfoldable pub tokenize : (Text → Text) → Text → List Text
unfolding keep
tokenize to_lower s = keep (λ (w : Text). ltb 2 (length w)) (words (to_lower s))

-- `s.includes(t)`
abbrev pub contains : Text → Text → Bool
contains t [] = is_empty t
contains t (c ∷ s) = starts_with t (c ∷ s) || contains t s

abbrev pub is_pinned : LoadPolicy → Bool
is_pinned pinned = true
is_pinned _ = false

abbrev pub hits : Text → List Text → ℕ
hits haystack [] = 0
hits haystack (t ∷ ts) = (if contains t haystack then 1 else 0) + hits haystack ts

abbrev pub haystack_of : (Text → Text) → Memory → Text
haystack_of to_lower m = to_lower (
    join (lit " ") (
      m.value.title
      ∷ m.value.body
      ∷ scope_text m.value.scope
      ∷ kind_text m.value.kind
      ∷ m.value.tags))

abbrev pub score_by : Text → LoadPolicy → List Text → ℕ
score_by haystack p [] = if is_pinned p then 5 else 1
score_by haystack p (t ∷ ts) = hits haystack (t ∷ ts) + (if is_pinned p then 2 else 0)

-- scoreMemory
unfoldable pub score_memory : (Text → Text) → Memory → Text → ℕ
unfolding tokenize join
score_memory to_lower m query =
    score_by (haystack_of to_lower m) m.value.load_policy (tokenize to_lower query)

pub record Filters : Type 0 where
  pub query : Text
  pub project_id : Option Text
  pub thread_id : Option Text
  pub scope : Option Text
  pub includes_archived : Bool
  pub limit : Option ℕ  -- `none`: absent, or not a number

pub record Scored : Type 0 where
  pub memory : Memory
  pub score : ℕ

abbrev pub is_archived : Status → Bool
is_archived archived = true
is_archived active = false

-- `a === b`, where null equals itself.
abbrev pub same_id : Option Text → Option Text → Bool
same_id none none = true
same_id (some s) (some t) = text_eq s t
same_id _ _ = false

abbrev pub is_global : Scope → Bool
is_global Scope.global = true
is_global _ = false

abbrev pub in_scope : Option Text → Scope → Bool
in_scope none s = true
in_scope (some []) s = true
in_scope (some (c ∷ t)) s = text_eq (scope_text s) (c ∷ t)

abbrev pub in_project : Option Text → Memory → Bool
in_project none m = true
in_project (some []) m = true
in_project (some (c ∷ p)) m = same_id m.value.project_id (some (c ∷ p)) || is_global m.value.scope

abbrev pub in_thread : Option Text → Memory → Bool
in_thread none m = true
in_thread (some []) m = true
in_thread (some (c ∷ t)) m = same_id m.value.thread_id (some (c ∷ t))

-- The filters before the scores are known.
unfoldable pub passes : Filters → Memory → Bool
passes f m =
    (f.includes_archived || not (is_archived m.status))
    && in_scope f.scope m.value.scope
    && in_project f.project_id m
    && in_thread f.thread_id m

-- `Math.max(1, Math.min(200, Number(limit) || 20))`; a negative limit gives 1 like the limit 1, so a
-- caller that has one is modelled with 1.
unfoldable pub search_limit : Option ℕ → ℕ
search_limit none = 20
search_limit (some n) = if n == 0 then 20 else if ltb 200 n then 200 else n

module _ (to_lower : Text → Text) (time_of : Text → ℕ) where
  -- The comparison puts `x` before `y`.
  abbrev pub is_before : Scored → Scored → Bool
  is_before x y =
      ltb y.score x.score
      || (x.score == y.score && ltb (time_of y.memory.updated_at) (time_of x.memory.updated_at))

  abbrev pub insert_ranked : Scored → List Scored → List Scored
  insert_ranked x [] = x ∷ []
  insert_ranked x (y ∷ ys) =
      let rest = insert_ranked x ys in if is_before y x then y ∷ rest else x ∷ y ∷ ys

  -- The stable sort.
  unfoldable pub ranked : List Scored → List Scored
  ranked [] = []
  ranked (x ∷ xs) = insert_ranked x (ranked xs)

  abbrev pub scored : Text → Memory → Scored
  scored query m = record { memory = m; score = score_memory to_lower m query }

  -- The memories that match, each with its score.
  unfoldable pub candidates : Filters → Map Memory → List Scored
  unfolding passes keep score_memory
  candidates f ms =
      keep (λ (s : Scored). is_empty f.query || ltb 0 s.score)
        (map (scored f.query) (keep (passes f) (values ms)))

  -- `search`, before the serialization of the items.
  unfoldable pub found : Filters → Map Memory → List Scored
  unfolding candidates ranked search_limit
  found f ms = take (search_limit f.limit) (ranked (candidates f ms))

  -- `search`
  unfoldable pub search : Filters → Map Memory → List Memory
  unfolding found serialize
  search f ms = map (λ (s : Scored). serialize s.memory) (found f ms)
