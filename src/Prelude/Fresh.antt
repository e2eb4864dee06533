-- ===== src/Prelude/Fresh.antt =====
-- `let id = randomUUID(); while (taken(id)) id = randomUUID();`, over the texts that the generator
-- gives. The loop ends as soon as it has drawn more distinct texts than there are keys.
use Prim.Native.Nat.{◌+◌, ◌≤◌, ◌<◌}
use mathlib.Core.Path.{◌≡◌, refl}
use mathlib.Core.Logic.{inl, inr}
use mathlib.Core.Bool.{Bool, true, false, not, ◌||◌}
use mathlib.Core.Option.{Option, none, some}
use mathlib.Core.List.{List, [], ◌∷◌}
use native.Mathlib.Omega.{arith}
use ender.Prelude.Tests.{if◌then◌else◌, Bool-cases}
use ender.Prelude.Lists.{length, keep}
use ender.Prelude.Strings.{Text, text_eq, text_eq_iff, is_empty, includes}
use ender.Prelude.Maps.{Map, has}

-- `none`: the generator's texts have run out. An empty text is never taken.
unfoldable pub fresh_key {ℓ} : {V : Type ℓ} → List Text → Map V → Option Text
fresh_key [] m = none
fresh_key (c ∷ cs) m = let later = fresh_key cs m in if is_empty c || has c m then later else some c

abbrev pub AreDistinct : List Text → Type 0
AreDistinct [] = Unit
AreDistinct (c ∷ cs) = (includes cs c ≡ false) × (is_empty c ≡ false) × AreDistinct cs

all_taken {ℓ} : {V : Type ℓ} → List Text → Map V → Bool
all_taken [] m = true
all_taken (c ∷ cs) m = if has c m then all_taken cs m else false

others : Text → List Text → List Text
others k = keep (λ c. not (text_eq k c))

includes-others :
    (k c : Text) (cs : List Text) → includes cs c ≡ false → includes (others k cs) c ≡ false
unfolding others keep includes
includes-others k c [] h = refl
includes-others k c (x ∷ cs) h = ground (arith, includes-others k c cs)

others-distinct : (k : Text) (cs : List Text) → AreDistinct cs → AreDistinct (others k cs)
unfolding others keep
others-distinct k [] h = tt
others-distinct k (x ∷ cs) h = ground (arith, includes-others k x cs, others-distinct k cs)

others_absent : (k : Text) (cs : List Text) → includes cs k ≡ false → others k cs ≡ cs
unfolding others keep includes
others_absent k [] h = refl
others_absent k (x ∷ cs) h = ground (arith, others_absent k cs, text_eq_iff k x, text_eq_iff x k)

length-others : (k : Text) (cs : List Text) → AreDistinct cs → length cs ≤ length (others k cs) + 1
unfolding others keep
length-others k [] h = omega arith
length-others k (x ∷ cs) h =
    ground (arith, length-others k cs, text_eq_iff k x, others_absent x cs, others_absent k cs)

others-taken {ℓ} :
    {V : Type ℓ} (k : Text) (v : V) (m : Map V) (cs : List Text)
    → all_taken cs ((k, v) ∷ m) ≡ true
    → all_taken (others k cs) m ≡ true
unfolding others keep all_taken has
others-taken k v m [] h = refl
others-taken k v m (x ∷ cs) h = ground (arith, others-taken k v m cs)

-- Distinct texts that are all keys are no more than the entries.
taken-le {ℓ} :
    {V : Type ℓ} (m : Map V) (cs : List Text)
    → AreDistinct cs
    → all_taken cs m ≡ true
    → length cs ≤ length m
unfolding all_taken has
taken-le [] [] d h = omega arith
taken-le [] (c ∷ cs) d h = cc
taken-le ((k, v) ∷ m) cs d h = omega (
  arith,
  length-others k cs d,
  taken-le m (others k cs) (others-distinct k cs d) (others-taken k v m cs h),
)

fresh_key-some {ℓ} :
    {V : Type ℓ} (m : Map V) (cs : List Text)
    → AreDistinct cs
    → all_taken cs m ≡ false
    → (c : Text) × (fresh_key cs m ≡ some c)
unfolding fresh_key all_taken
fresh_key-some m [] d h = cc
fresh_key-some m (c ∷ cs) d h = elim (Bool-cases (is_empty c || has c m)) [
  | inl taken ↦ rw taken (fresh_key-some m cs d.2 (ground arith))
  | inr free ↦ (c, rw free)
]

pub fresh_key_total {ℓ} :
    {V : Type ℓ} (m : Map V) (cs : List Text)
    → AreDistinct cs
    → length m < length cs
    → (c : Text) × (fresh_key cs m ≡ some c)
fresh_key_total m cs d h = fresh_key-some m cs d (ground (arith, taken-le m cs d))

pub fresh_key_unused {ℓ} :
    {V : Type ℓ} (m : Map V) (cs : List Text) {c : Text}
    → fresh_key cs m ≡ some c
    → (has c m ≡ false) × (is_empty c ≡ false)
unfolding fresh_key
fresh_key_unused m [] h = cc
fresh_key_unused m (x ∷ cs) {c} h = elim (Bool-cases (is_empty x || has x m)) [
  | inl taken ↦ fresh_key_unused m cs (ground arith)
  | inr free ↦ ground arith
]
