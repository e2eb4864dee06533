-- ===== src/Memories/Ranking.antt =====
-- The order and the number of what `search` of src/runtime/memoryManager.js finds.
use mathlib.Core.List.{Memᴰ}
use mathlib.Core.List.Memᴰ.{head, tail}
use mathlib.Core.Path.{subst}
use ender.Prelude.{
  ℕ, zero, suc, ◌≤◌, true, false, ◌&&◌, ◌||◌, Option, none, some, ap, refl, List, [], ◌∷◌, Text,
  All, All-imp, if-holds, take, length, length-take-le, Map, ltb, ◌==◌, ◌≡◌, sym, ◌⊎◌, inl, inr,
  arith,
}
use ender.Memories.{Memory}
use ender.Memories.Search.{
  Filters, Scored, is_before, insert_ranked, ranked, candidates, found, search_limit,
}

not_before_trans :
    (s t a u b v : ℕ)  -- the scores and times of x, y and z
    → (ltb s a || (a == s && ltb t u)) ≡ false
    → (ltb a b || (b == a && ltb u v)) ≡ false
    → (ltb s b || (b == s && ltb t v)) ≡ false
not_before_trans = ground arith

before_asym :
    (s t a u : ℕ)
    → (ltb s a || (a == s && ltb t u)) ≡ true
    → (ltb a s || (s == a && ltb u t)) ≡ false
before_asym = ground arith

All-at {ℓ κ} : {A : Type ℓ} (P : A → Type κ) (xs : List A) {x : A} → All P xs → Memᴰ x xs → P x
All-at P [] h m = elim m [ ]
All-at P (y ∷ ys) (p, h) (head e) = subst P (sym e) p
All-at P (y ∷ ys) (p, h) (tail m) = All-at P ys h m

limit_bounds : (limit : Option ℕ) → (1 ≤ search_limit limit) × (search_limit limit ≤ 200)
unfolding search_limit
limit_bounds none = (omega arith, omega arith)
limit_bounds (some n) = (ground arith, ground arith)

module _ (to_lower : Text → Text) (time_of : Text → ℕ) where
  Follows : Scored → Scored → Type 0
  Follows x y = is_before to_lower time_of y x ≡ false

  IsRanked : List Scored → Type 0
  IsRanked [] = Unit
  IsRanked (x ∷ xs) = All (Follows x) xs × IsRanked xs

  insert_ranked-All :
      (P : Scored → Type 0) (x : Scored) (xs : List Scored)
      → P x
      → All P xs
      → All P (insert_ranked to_lower time_of x xs)
  insert_ranked-All P x [] p h = (p, tt)
  insert_ranked-All P x (y ∷ ys) p (q, h) =
      if-holds (All P) (is_before to_lower time_of y x) (y ∷ insert_ranked to_lower time_of x ys)
        (x ∷ y ∷ ys) (λ _. (q, insert_ranked-All P x ys p h)) (λ _. (p, (q, h)))

  pub ranked-All :
      (P : Scored → Type 0) (xs : List Scored) → All P xs → All P (ranked to_lower time_of xs)
  unfolding ranked
  ranked-All P [] h = tt
  ranked-All P (x ∷ xs) (p, h) =
      insert_ranked-All P x (ranked to_lower time_of xs) p (ranked-All P xs h)

  insert_ranked-IsRanked :
      (x : Scored) (xs : List Scored) → IsRanked xs → IsRanked (insert_ranked to_lower time_of x xs)
  unfolding IsRanked Follows
  insert_ranked-IsRanked x [] h = (tt, tt)
  insert_ranked-IsRanked x (y ∷ ys) (a, h) =
      if-holds IsRanked (is_before to_lower time_of y x) (y ∷ insert_ranked to_lower time_of x ys)
        (x ∷ y ∷ ys)
        (λ e. (
          insert_ranked-All (Follows y) x ys
              (before_asym x.score (time_of x.memory.updated_at) y.score
                (time_of y.memory.updated_at) e)
              a,
          insert_ranked-IsRanked x ys h,
        ))
        (λ e. (
          (
            e,
            All-imp (Follows y) (Follows x) ys
                (λ z.
                  not_before_trans x.score (time_of x.memory.updated_at) y.score
                    (time_of y.memory.updated_at) z.score (time_of z.memory.updated_at) e)
                a,
          ),
          (a, h),
        ))

  ranked-IsRanked : (xs : List Scored) → IsRanked (ranked to_lower time_of xs)
  unfolding ranked IsRanked
  ranked-IsRanked [] = tt
  ranked-IsRanked (x ∷ xs) =
      insert_ranked-IsRanked x (ranked to_lower time_of xs) (ranked-IsRanked xs)

  Mem-insert_ranked :
      (x s : Scored) (xs : List Scored)
      → (s ≡ x) ⊎ Memᴰ s xs
      → Memᴰ s (insert_ranked to_lower time_of x xs)
  Mem-insert_ranked x s [] (inl e) = head e
  Mem-insert_ranked x s [] (inr m) = elim m [ ]
  Mem-insert_ranked x s (y ∷ ys) (inl e) =
      if-holds (Memᴰ s) (is_before to_lower time_of y x) (y ∷ insert_ranked to_lower time_of x ys)
        (x ∷ y ∷ ys) (λ _. tail (Mem-insert_ranked x s ys (inl e))) (λ _. head e)
  Mem-insert_ranked x s (y ∷ ys) (inr (head e)) =
      if-holds (Memᴰ s) (is_before to_lower time_of y x) (y ∷ insert_ranked to_lower time_of x ys)
        (x ∷ y ∷ ys) (λ _. head e) (λ _. tail (head e))
  Mem-insert_ranked x s (y ∷ ys) (inr (tail m)) =
      if-holds (Memᴰ s) (is_before to_lower time_of y x) (y ∷ insert_ranked to_lower time_of x ys)
        (x ∷ y ∷ ys) (λ _. tail (Mem-insert_ranked x s ys (inr m))) (λ _. tail (tail m))

  Mem-ranked : (s : Scored) (xs : List Scored) → Memᴰ s xs → Memᴰ s (ranked to_lower time_of xs)
  unfolding ranked
  Mem-ranked s [] m = elim m [ ]
  Mem-ranked s (x ∷ xs) (head e) = Mem-insert_ranked x s (ranked to_lower time_of xs) (inl e)
  Mem-ranked s (x ∷ xs) (tail m) =
      Mem-insert_ranked x s (ranked to_lower time_of xs) (inr (Mem-ranked s xs m))

  Mem-take :
      (n : ℕ) (s : Scored) (xs : List Scored)
      → IsRanked xs
      → Memᴰ s xs
      → Memᴰ s (take n xs) ⊎ (All (λ x. Follows x s) (take n xs) × (length (take n xs) ≡ n))
  unfolding IsRanked
  Mem-take zero s xs h m = inr (tt, refl)
  Mem-take (suc n) s [] h m = elim m [ ]
  Mem-take (suc n) s (x ∷ xs) (a, h) (head e) = inl (head e)
  Mem-take (suc n) s (x ∷ xs) (a, h) (tail m) = elim (Mem-take n s xs h m) [
    | inl i ↦ inl (tail i)
    | inr (b, e) ↦ inr ((All-at (Follows x) xs a m, b), ap suc e)
  ]

  -- A memory that matches is found, or as many as the limit are found, each of which comes before it or
  -- ranks alike. What is found is no more than the limit, which is one from 1 to 200.
  pub found_best :
      (f : Filters) (ms : Map Memory) (s : Scored)
      → Memᴰ s (candidates to_lower time_of f ms)
      → let best = found to_lower time_of f ms in
        let limit = search_limit f.limit in
        (Memᴰ s best
          ⊎ (All (λ x. is_before to_lower time_of s x ≡ false) best × (length best ≡ limit)))
        × (length best ≤ limit)
        × (1 ≤ limit)
        × (limit ≤ 200)
  unfolding found Follows
  found_best f ms s m =
      let xs = ranked to_lower time_of (candidates to_lower time_of f ms) in
      let (one, most) = limit_bounds f.limit in
      (
        Mem-take (search_limit f.limit) s xs (ranked-IsRanked (candidates to_lower time_of f ms))
            (Mem-ranked s (candidates to_lower time_of f ms) m),
        length-take-le (search_limit f.limit) xs,
        one,
        most,
      )
