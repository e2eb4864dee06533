-- ===== src/Relay/Balance.antt =====
-- How often an id stands in the parts of a server of the relay, src/pillar/server.js.
pub mod Moves
pub mod Once
use ender.Prelude.{
  ℕ, zero, suc, ◌+◌, ◌≤◌, Bool, true, false, not, ◌||◌, List, [], ◌∷◌, ◌++◌, map, Option, none,
  some, Text, text_eq, text_eq_iff, text_eq_refl, includes, take, drop, keep, count_of, All, Map,
  insert, lookup, remove, ◌≡◌, refl, arith, if◌then◌else◌,
}
use ender.Relay.{Request}
use ender.Relay.Queue.{Event, polled, answered, timed_out, deliver, delivered, is_not}

abbrev pub copies : Text → List Text → ℕ
copies k xs = count_of (text_eq k) xs

abbrev pub ids : List Request → List Text
ids rs = map (λ r. r.id) rs

abbrev pub keys {ℓ} : {V : Type ℓ} → Map V → List Text
keys m = map (λ e. e.0) m

abbrev pub settles : Text → Event → ℕ
settles k (polled n ws) = 0
settles k (answered id a) = if text_eq k id then 1 else 0
settles k (timed_out id) = if text_eq k id then 1 else 0

-- How often the promise of a request was settled.
unfoldable pub settled : Text → List Event → ℕ
settled k [] = 0
settled k (e ∷ es) = settles k e + settled k es

pub settled-append :
    (k : Text) (xs ys : List Event) → settled k (xs ++ ys) ≡ settled k xs + settled k ys
unfolding settled
settled-append k [] ys = omega arith
settled-append k (x ∷ xs) ys = omega (arith, settled-append k xs ys)

pub copies-append : (k : Text) (xs ys : List Text) → copies k (xs ++ ys) ≡ copies k xs + copies k ys
unfolding count_of
copies-append k [] ys = omega arith
copies-append k (x ∷ xs) ys = omega (arith, copies-append k xs ys)

pub copies-ids_append :
    (k : Text) (xs ys : List Request)
    → copies k (ids (xs ++ ys)) ≡ copies k (ids xs) + copies k (ids ys)
unfolding count_of
copies-ids_append k [] ys = omega arith
copies-ids_append k (x ∷ xs) ys = omega (arith, copies-ids_append k xs ys)

pub copies-split :
    (k : Text) (n : ℕ) (rs : List Request)
    → copies k (ids (take n rs)) + copies k (ids (drop n rs)) ≡ copies k (ids rs)
unfolding count_of
copies-split k zero rs = omega arith
copies-split k (suc n) [] = omega arith
copies-split k (suc n) (r ∷ rs) = omega (arith, copies-split k n rs)

pub copies-insert {ℓ} :
    {V : Type ℓ} (k j : Text) (v : V) (m : Map V)
    → copies j (keys m) ≡ 0
    → copies k (keys (insert j v m)) ≡ copies k (keys m) + (if text_eq k j then 1 else 0)
unfolding count_of insert
copies-insert k j v [] h = omega arith
copies-insert k j v ((i, w) ∷ m) h =
    grind (arith, copies-insert k j v m, text_eq_iff i j, text_eq_iff j i)

pub copies-deliver :
    (now k : Text) (rs : List Request) (m : Map Request)
    → ((j : Text) → copies j (ids rs) + copies j (keys m) ≤ 1)
    → copies k (keys (deliver now rs m)) ≡ copies k (ids rs) + copies k (keys m)
unfolding deliver count_of
copies-deliver now k [] m h = omega arith
copies-deliver now k (r ∷ rs) m h = omega (
  arith,
  copies-insert k (r.id) (delivered now r) m absent,
  copies-deliver now k rs (insert r.id (delivered now r) m) next,
)
  where
    absent : copies (r.id) (keys m) ≡ 0
    absent = grind (arith, h (r.id), text_eq_refl (r.id))

    next : (j : Text) → copies j (ids rs) + copies j (keys (insert r.id (delivered now r) m)) ≤ 1
    next j = omega (arith, copies-insert j (r.id) (delivered now r) m absent, h j)

pub copies-remove {ℓ} :
    {V : Type ℓ} (k j : Text) (m : Map V)
    → copies k (keys (remove j m)) ≡ (if text_eq k j then 0 else copies k (keys m))
unfolding count_of remove
copies-remove k j [] = ground arith
copies-remove k j ((i, w) ∷ m) =
    grind (arith, copies-remove k j m, text_eq_iff i j, text_eq_iff k i, text_eq_iff k j)

pub copies-keep_not :
    (k j : Text) (xs : List Text)
    → copies k (keep (is_not j) xs) ≡ (if text_eq k j then 0 else copies k xs)
unfolding count_of keep
copies-keep_not k j [] = ground arith
copies-keep_not k j (i ∷ xs) =
    grind (arith, copies-keep_not k j xs, text_eq_iff i j, text_eq_iff k i, text_eq_iff k j)

pub copies-keep_others :
    (k j : Text) (rs : List Request)
    → copies k (ids (keep (λ r. is_not j (r.id)) rs))
      ≡ (if text_eq k j then 0 else copies k (ids rs))
unfolding count_of keep
copies-keep_others k j [] = ground arith
copies-keep_others k j (r ∷ rs) =
    grind (
      arith,
      copies-keep_others k j rs,
      text_eq_iff (r.id) j,
      text_eq_iff k (r.id),
      text_eq_iff k j,
    )

pub copies-lookup {ℓ} :
    {V : Type ℓ} (k : Text) (v : V) (m : Map V) → lookup k m ≡ some v → 1 ≤ copies k (keys m)
unfolding count_of lookup
copies-lookup k v [] h = cc
copies-lookup k v ((i, w) ∷ m) h =
    grind (arith, copies-lookup k v m, text_eq_iff i k, text_eq_iff k i)

pub copies-includes : (k : Text) (xs : List Text) → includes xs k ≡ true → 1 ≤ copies k xs
unfolding count_of includes
copies-includes k [] h = cc
copies-includes k (i ∷ xs) h = grind (arith, copies-includes k xs, text_eq_iff i k, text_eq_iff k i)
