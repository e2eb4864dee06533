-- ===== src/Prelude/Every.antt =====
-- Predicates that every item of a list satisfies, through the operations on lists and maps.
use mathlib.Core.Path.{◌≡◌, refl, subst}
use mathlib.Core.Option.{some}
use mathlib.Core.Bool.{Bool, true, false}
use mathlib.Core.List.{List, [], ◌∷◌, map, Memᴰ}
use mathlib.Core.List.Memᴰ.{head, tail}
use ender.Prelude.Tests.{if◌then◌else◌}
use ender.Prelude.Lists.{All, keep, take}
use ender.Prelude.Strings.{Text, text_eq}
use ender.Prelude.Maps.{Map, insert, lookup, values}
use Prim.Native.Nat.{ℕ, zero, suc}

-- A proof for each branch of a test.
pub if-holds {ℓ κ} :
    {A : Type ℓ} (P : A → Type κ) (b : Bool) (x y : A)
    → (b ≡ true → P x)
    → (b ≡ false → P y)
    → P (if b then x else y)
if-holds P true x y p q = p refl
if-holds P false x y p q = q refl

module _ {ℓ κ} {A : Type ℓ} (P : A → Type κ) where
  pub All-take : (n : ℕ) (xs : List A) → All P xs → All P (take n xs)
  All-take zero xs h = tt
  All-take (suc n) [] h = tt
  All-take (suc n) (x ∷ xs) (p, h) = (p, All-take n xs h)

  pub All-insert :
      (k : Text) (v : A) (m : Map A) → P v → All P (values m) → All P (values (insert k v m))
  unfolding insert
  All-insert k v [] p h = (p, tt)
  All-insert k v ((j, w) ∷ m) p (q, h) =
      if-holds (λ e. All P (values e)) (text_eq j k) ((j, v) ∷ m) ((j, w) ∷ insert k v m)
        (λ _. (p, h)) (λ _. (q, All-insert k v m p h))

  pub All-lookup : (k : Text) (v : A) (m : Map A) → All P (values m) → lookup k m ≡ some v → P v
  unfolding lookup
  All-lookup k v [] h e = cc
  All-lookup k v ((j, w) ∷ m) (p, h) e =
      if-holds (λ o. o ≡ some v → P v) (text_eq j k) (some w) (lookup k m)
        (λ _ q. subst P (some-inj q) p) (λ _. All-lookup k v m h) e
    where
      some-inj : {x y : A} → some x ≡ some y → x ≡ y
      some-inj e = cc

  pub All-imp {μ} : (Q : A → Type μ) (xs : List A) → ((x : A) → P x → Q x) → All P xs → All Q xs
  All-imp Q [] f h = tt
  All-imp Q (x ∷ xs) f (p, h) = (f x p, All-imp Q xs f h)

  pub All-keep : (t : A → Bool) (xs : List A) → All P xs → All (λ x. P x × (t x ≡ true)) (keep t xs)
  unfolding keep
  All-keep t [] h = tt
  All-keep t (x ∷ xs) (p, h) =
      if-holds (λ ys. All (λ y. P y × (t y ≡ true)) ys) (t x) (x ∷ keep t xs) (keep t xs)
        (λ e. ((p, e), All-keep t xs h)) (λ _. All-keep t xs h)

  pub All-map {μ} :
      {B : Type μ} (f : B → A) (xs : List B) → All (λ x. P (f x)) xs → All P (map f xs)
  All-map f [] h = tt
  All-map f (x ∷ xs) (p, h) = (p, All-map f xs h)

-- Every item is an item of its list.
pub All-Mem {ℓ} : {A : Type ℓ} (xs : List A) → All (λ x. Memᴰ x xs) xs
All-Mem [] = tt
All-Mem (x ∷ xs) =
    (head refl, All-imp (λ y. Memᴰ y xs) (λ y. Memᴰ y (x ∷ xs)) xs (λ y m. tail m) (All-Mem xs))
