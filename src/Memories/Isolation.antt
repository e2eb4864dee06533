-- ===== src/Memories/Isolation.antt =====
-- What the memories of a context pack may be, `buildContextPack` of src/runtime/memoryManager.js.
use mathlib.Core.List.{Memᴰ}
use ender.Prelude.{
  trim, ℕ, Bool, true, false, not, ◌&&◌, ◌||◌, List, [], ◌∷◌, Option, none, some, Text, is_empty,
  ltb, All, All-take, All-insert, All-imp, All-keep, All-map, All-Mem, if-holds, keep, map, take,
  Map, insert, values, ◌≡◌, refl, ap, ◌⊎◌, inl, inr, arith, if◌then◌else◌,
}
use ender.Memories.{Memory, LoadPolicy, auto, pinned, manual, off, serialize}
use ender.Memories.Search.{
  Filters, Scored, passes, scored, ranked, candidates, found, search, search_limit, is_archived,
  is_global, is_pinned, same_id,
}
use ender.Memories.Ranking.{ranked-All}
use ender.Memories.Pack.{
  PackTask, PackProject, project_of, or_id, select, select_all, of_task, is_chosen, is_off,
  is_manual, is_auto, is_of_thread, is_of_project, filters_for, goal_of, pack_items,
}

-- The memory may be shown to a task of the project `p`: it is in use, loaded without being asked
-- for, and global, of the project or of the task's own thread.
abbrev pub is_fit : Option PackTask → Text → Memory → Bool
is_fit task p m =
    not (is_archived m.status)
    && not (is_off m.value.load_policy || is_manual m.value.load_policy)
    && (is_global m.value.scope
        || same_id m.value.project_id (some p)
        || (is_of_thread m.value.scope && of_task task m.value.thread_id))

-- What is packed is a memory of the store, as it is or serialized, that may be shown.
Chosen : Option PackTask → Text → List Memory → Memory → Type 0
Chosen task p ms x =
    (m : Memory) × Memᴰ m ms × (is_fit task p m ≡ true) × ((x ≡ m) ⊎ (x ≡ serialize m))

abbrev pub IsShowing : Option PackTask → Text → List Memory → Memory → Type 0
IsShowing task p ms x =
    (m : Memory) × Memᴰ m ms
    × (is_fit task p m ≡ true)
    × ((x ≡ serialize m) ⊎ (x ≡ serialize (serialize m)))

or_id-full : (a b : Option Text) → or_id a b ≡ some [] → ⊥
or_id-full none none h = cc
or_id-full none (some []) h = cc
or_id-full none (some (c ∷ s)) h = cc
or_id-full (some []) none h = cc
or_id-full (some []) (some []) h = cc
or_id-full (some []) (some (c ∷ s)) h = cc
or_id-full (some (c ∷ s)) b h = cc

project_of-full : (t : Option PackTask) (p : Option PackProject) → project_of t p ≡ some [] → ⊥
unfolding project_of
project_of-full none none h = cc
project_of-full none (some p) h = or_id-full none (some p.id) h
project_of-full (some t) none h = or_id-full t.project_id none h
project_of-full (some t) (some p) h = or_id-full t.project_id (some p.id) h

chosen_is_fit :
    (l : LoadPolicy) (gone all same of_thread own project empty : Bool)
    → ((is_pinned l && (all || same))
        || (of_thread && own && not (is_manual l))
        || (project && not empty && same && is_auto l))
      ≡ true
    → gone ≡ false
    → is_off l ≡ false
    → (not gone && not (is_off l || is_manual l) && (all || same || (of_thread && own))) ≡ true
chosen_is_fit auto = ground arith
chosen_is_fit pinned = ground arith
chosen_is_fit manual = ground arith
chosen_is_fit off = ground arith

module _ (P : Memory → Type 0) where
  select-All :
      (m : Memory) (chosen : Map Memory)
      → (is_archived m.status ≡ false → is_off m.value.load_policy ≡ false → P m)
      → All P (values chosen)
      → All P (values (select m chosen))
  unfolding select
  select-All m chosen p h =
      if-holds (λ e. All P (values e)) (is_archived m.status || is_off m.value.load_policy) chosen
        (insert m.id m chosen) (λ _. h)
        (λ e. All-insert P m.id m chosen (p (ground arith) (ground arith)) h)

  select_all-All :
      (test : Memory → Bool) (ms : List Memory) (chosen : Map Memory)
      → All
          (λ m.
            test m ≡ true → is_archived m.status ≡ false → is_off m.value.load_policy ≡ false → P m)
          ms
      → All P (values chosen)
      → All P (values (select_all test ms chosen))
  select_all-All test [] chosen p h = h
  select_all-All test (m ∷ ms) chosen (p, ps) h =
      select_all-All test ms (if test m then select m chosen else chosen) ps (
        if-holds (λ e. All P (values e)) (test m) (select m chosen) chosen
          (λ e. select-All m chosen (p e) h) (λ _. h))

module _ (to_lower : Text → Text) (time_of : Text → ℕ) where
  -- What is found passes the filters and is in the store.
  found-All :
      (f : Filters) (ms : Map Memory)
      → All
          (λ (s : Scored). Memᴰ s.memory (values ms) × (passes f s.memory ≡ true))
          (found to_lower time_of f ms)
  unfolding found candidates
  found-All f ms =
      let inner = map (scored to_lower time_of f.query) (keep (passes f) (values ms)) in
      All-take Found (search_limit f.limit)
        (ranked to_lower time_of (candidates to_lower time_of f ms))
        (ranked-All to_lower time_of Found (candidates to_lower time_of f ms) (
          All-imp (λ s. Found s × ((is_empty f.query || ltb 0 s.score) ≡ true)) Found
            (candidates to_lower time_of f ms) (λ s h. h.0)
            (All-keep Found (λ (s : Scored). is_empty f.query || ltb 0 s.score) inner
              (All-map Found (scored to_lower time_of f.query) (keep (passes f) (values ms)) (
                All-keep (λ m. Memᴰ m (values ms)) (passes f) (values ms) (All-Mem (values ms)))))))
    where
      Found : Scored → Type 0
      Found s = Memᴰ s.memory (values ms) × (passes f s.memory ≡ true)

found_is_fit :
    (gone all same of_thread own away kept : Bool)
    → ((false || not gone) && true && (same || all) && true) ≡ true
    → not kept ≡ true
    → away ≡ false
    → (not gone && not (away || kept) && (all || same || (of_thread && own))) ≡ true
found_is_fit = ground arith

module _ (to_lower : Text → Text) (time_of : Text → ℕ) (task : Option PackTask) (c : ℕ) (p : Text)
    (ms : Map Memory) where
  Fits : Memory → Type 0
  Fits = Chosen task (c ∷ p) (values ms)

  first_fit : All Fits (values (select_all (is_chosen task (some (c ∷ p))) (values ms) []))
  unfolding is_chosen Fits Chosen
  first_fit =
      select_all-All Fits (is_chosen task (some (c ∷ p))) (values ms) []
        (All-imp (λ m. Memᴰ m (values ms)) _ (values ms)
          (λ m i e g o. (
            m,
            i,
            chosen_is_fit m.value.load_policy (is_archived m.status) (is_global m.value.scope)
                (same_id m.value.project_id (some (c ∷ p))) (is_of_thread m.value.scope)
                (of_task task m.value.thread_id) (is_of_project m.value.scope) false e g o,
            inl refl,
          ))
          (All-Mem (values ms)))
        tt

  search_fit :
      (goal : Text)
      → All
          (λ m.
            not (is_manual m.value.load_policy) ≡ true
            → is_archived m.status ≡ false
            → is_off m.value.load_policy ≡ false
            → Fits m)
          (search to_lower time_of (filters_for goal (some (c ∷ p))) ms)
  unfolding search serialize passes Fits Chosen
  search_fit goal =
      All-map _ (λ (s : Scored). serialize s.memory) (found to_lower time_of f ms)
        (All-imp (λ (s : Scored). Memᴰ s.memory (values ms) × (passes f s.memory ≡ true)) _
          (found to_lower time_of f ms)
          (λ s h k g o. (
            s.memory,
            h.0,
            found_is_fit (is_archived s.memory.status) (is_global s.memory.value.scope)
                (same_id s.memory.value.project_id (some (c ∷ p)))
                (is_of_thread s.memory.value.scope) (of_task task s.memory.value.thread_id)
                (is_off s.memory.value.load_policy) (is_manual s.memory.value.load_policy) h.1 k o,
            inr refl,
          ))
          (found-All to_lower time_of f ms))
    where
      f : Filters
      f = filters_for goal (some (c ∷ p))

  shown : (x : Memory) → Fits x → IsShowing task (c ∷ p) (values ms) (serialize x)
  unfolding Chosen Fits
  shown x (m, i, e, inl q) = (m, i, e, inl (ap serialize q))
  shown x (m, i, e, inr q) = (m, i, e, inr (ap serialize q))

module _ (to_lower : Text → Text) (time_of : Text → ℕ) where
  -- If the task or its project names a project, by an id without space around it, every memory of
  -- the context pack is in use, is loaded without being asked for, and is global, of that project or
  -- of the task's own thread. It is shown serialized, once or twice.
  pub pack_items_isolates :
      (task : Option PackTask) (project : Option PackProject) (p : Text) (ms : Map Memory)
      → project_of task project ≡ some p
      → trim p ≡ p
      → All (IsShowing task p (values ms)) (pack_items to_lower time_of task project ms)
  unfolding pack_items
  pack_items_isolates task project [] ms h t = absurd (project_of-full task project h)
  pack_items_isolates task project (c ∷ p) ms h t =
      rw (h, t)
        (All-map (IsShowing task (c ∷ p) (values ms)) serialize (take 12 (values chosen)) (
          All-imp (Fits to_lower time_of task c p ms) _ (take 12 (values chosen))
            (shown to_lower time_of task c p ms)
            (All-take (Fits to_lower time_of task c p ms) 12 (values chosen) all_fit)))
    where
      hits : List Memory
      hits = search to_lower time_of (filters_for (goal_of task) (some (c ∷ p))) ms

      before : Map Memory
      before = select_all (is_chosen task (some (c ∷ p))) (values ms) []

      chosen : Map Memory
      chosen = select_all (λ m. not (is_manual m.value.load_policy)) hits before

      all_fit : All (Fits to_lower time_of task c p ms) (values chosen)
      all_fit =
          select_all-All (Fits to_lower time_of task c p ms)
            (λ m. not (is_manual m.value.load_policy)) hits before
            (search_fit to_lower time_of task c p ms (goal_of task))
            (first_fit to_lower time_of task c p ms)
