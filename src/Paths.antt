-- ===== src/Paths.antt =====
-- The names in a path, to say where a directory lies without the tests that the code makes. The
-- separator is `/`.
use ender.Prelude.{
  append_assoc, append-nil, ℕ, Bool, true, false, not, List, [], ◌∷◌, ◌++◌, map, Text, lit, text_eq,
  is_empty, join, starts_with, keep, All, if-holds, ◌==◌, if◌then◌else◌, ◌≡◌, ◌⊎◌, refl, sym, ap,
  ◌∙◌, arith,
}

abbrev add_unit : ℕ → List Text → List Text
add_unit c [] = (c ∷ []) ∷ []
add_unit c (s ∷ ss) = (c ∷ s) ∷ ss

-- The parts of a path between its separators.
unfoldable parts : Text → List Text
parts [] = [] ∷ []
parts (c ∷ s) = let rest = parts s in if c == 47 then [] ∷ rest else add_unit c rest

abbrev is_part : Text → Bool
is_part s = not (is_empty s)

-- The names of the directories down to a path, `/w/x` being `w` and `x`.
unfoldable pub names : Text → List Text
unfolding parts
names s = keep is_part (parts s)

-- A path with no step to the parent or to itself.
abbrev pub IsPlain : Text → Type 0
IsPlain path =
    All (λ n. (text_eq n (lit "..") ≡ false) × (text_eq n (lit ".") ≡ false)) (names path)

-- The path is the root followed by these names, with no step back.
pub record Lies (root path : Text) (rest : List Text) : Type 0 where
  pub below : names path ≡ names root ++ rest
  pub plain : IsPlain path

abbrev pub slash : Text
slash = 47 ∷ []

keep-append {ℓ} :
    {A : Type ℓ} (p : A → Bool) (xs ys : List A) → keep p (xs ++ ys) ≡ keep p xs ++ keep p ys
unfolding keep
keep-append p [] ys = refl
keep-append p (x ∷ xs) ys = ground (arith, keep-append p xs ys)

-- A separator ends a part.
abbrev HasPart : List Text → Type 0
HasPart [] = ⊥
HasPart (s ∷ ss) = Unit

parts-HasPart : (s : Text) → HasPart (parts s)
unfolding parts
parts-HasPart [] = tt
parts-HasPart (c ∷ s) =
    if-holds HasPart (c == 47) ([] ∷ parts s) (add_unit c (parts s)) (λ _. tt)
      (λ _. added (parts s))
  where
    added : (ss : List Text) → HasPart (add_unit c ss)
    added [] = tt
    added (s ∷ ss) = tt

add_unit-front :
    (c : ℕ) (xs ys : List Text) → HasPart xs → add_unit c (xs ++ ys) ≡ add_unit c xs ++ ys
add_unit-front c [] ys h = absurd h
add_unit-front c (x ∷ xs) ys h = refl

parts-slash : (s t : Text) → parts (s ++ 47 ∷ t) ≡ parts s ++ parts t
unfolding parts
parts-slash [] t = refl
parts-slash (c ∷ s) t = by_test (c == 47) (parts-slash s t)
  where
    by_test :
        (b : Bool)
        → parts (s ++ 47 ∷ t) ≡ parts s ++ parts t
        → (if b then [] ∷ parts (s ++ 47 ∷ t) else add_unit c (parts (s ++ 47 ∷ t)))
          ≡ (if b then [] ∷ parts s else add_unit c (parts s)) ++ parts t
    by_test true e = ap (λ ss. [] ∷ ss) e
    by_test false e = ap (add_unit c) e ∙ add_unit-front c (parts s) (parts t) (parts-HasPart s)

pub names-slash : (s t : Text) → names (s ++ 47 ∷ t) ≡ names s ++ names t
unfolding names
names-slash s t = ap (keep is_part) (parts-slash s t) ∙ keep-append is_part (parts s) (parts t)

pub starts_with-rest : (p s : Text) → starts_with p s ≡ true → (r : Text) × (s ≡ p ++ r)
unfolding text_eq
starts_with-rest [] s h = (s, refl)
starts_with-rest (c ∷ p) [] h = absurd cc
starts_with-rest (c ∷ p) (d ∷ s) h =
    let (r, e) = starts_with-rest p s (ground arith) in
    let same : d ≡ c = ground arith in (r, cc (e, same))

pub names-slash_end : (s : Text) → names (s ++ slash) ≡ names s
unfolding names parts keep
names-slash_end s = names-slash s [] ∙ append-nil (names s)

pub Lies-at : (root path : Text) → path ≡ root → IsPlain path → Lies root path []
Lies-at root path e p = record { below = ap names e ∙ sym (append-nil (names root)); plain = p }

pub Lies-below :
    (root path r : Text) → path ≡ root ++ 47 ∷ r → IsPlain path → Lies root path (names r)
Lies-below root path r e p = record { below = ap names e ∙ names-slash root r; plain = p }

pub append_slash : (s r : Text) → (s ++ slash) ++ r ≡ s ++ 47 ∷ r
append_slash s r = append_assoc s slash r

-- The steps back from the names that are left behind.
abbrev pub steps_back : List Text → List Text
steps_back gone = map (λ _. lit "..") gone

-- What path.relative answers from one path to another: a path of another volume, or steps back to where
-- the two part, and then down.
abbrev pub IsRelative : (Text → Bool) → Text → Text → Text → Type 0
IsRelative is_absolute from to answer =
    (is_absolute answer ≡ true)
    ⊎ ((common gone down : List Text) × (names from ≡ common ++ gone)
        × (names to ≡ common ++ down)
        × (answer ≡ join slash (steps_back gone ++ down)))

pub down_only :
    (from to : Text) (common down : List Text)
    → names from ≡ common ++ []
    → names to ≡ common ++ down
    → names to ≡ names from ++ down
down_only from to common down a b = b ∙ ap (λ ns. ns ++ down) (sym (a ∙ append-nil common))
