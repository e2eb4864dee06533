-- ===== src/Tests/Paths.antt =====
-- A concrete path.resolve and path.relative for the tests: a path with steps back goes to the root.
use ender.Prelude.{
  Bool, true, false, not, ◌&&◌, List, [], ◌∷◌, ◌++◌, Text, lit, keep, text_eq, text_eq→eq, join,
  if-holds, All, if◌then◌else◌, ◌≡◌, inr, refl, ap, arith,
}
use ender.Paths.{names, IsPlain, IsRelative, steps_back, slash}

abbrev all_plain : List Text → Bool
all_plain [] = true
all_plain (n ∷ ns) = not (text_eq n (lit "..")) && not (text_eq n (lit ".")) && all_plain ns

abbrev pub cleaned : Text → Text
cleaned s = if all_plain (names s) then s else lit "/"

all_plain-All :
    (ns : List Text)
    → all_plain ns ≡ true
    → All (λ n. (text_eq n (lit "..") ≡ false) × (text_eq n (lit ".") ≡ false)) ns
all_plain-All [] h = tt
all_plain-All (n ∷ ns) h = ((ground arith, ground arith), all_plain-All ns (ground arith))

root_is_plain : all_plain (names (lit "/")) ≡ true
unfolding names lit keep
root_is_plain = refl

pub cleaned-IsPlain : (s : Text) → IsPlain (cleaned s)
cleaned-IsPlain s =
    if-holds IsPlain (all_plain (names s)) s (lit "/") (λ e. all_plain-All (names s) e)
      (λ _. all_plain-All (names (lit "/")) root_is_plain)

pub cleaned_twice : (s : Text) → cleaned (cleaned s) ≡ cleaned s
cleaned_twice s =
    if-holds (λ t. cleaned t ≡ t) (all_plain (names s)) s (lit "/") (λ e. rw e refl)
      (λ _. rw root_is_plain refl)

-- The answer for the names of two paths below those that they share.
abbrev answer_between : List Text → List Text → Text
answer_between [] to = join slash to
answer_between (g ∷ gone) [] = join slash (steps_back (g ∷ gone) ++ [])
answer_between (g ∷ gone) (n ∷ down) =
    let shared = answer_between gone down in
    if text_eq g n then shared else join slash (steps_back (g ∷ gone) ++ n ∷ down)

abbrev pub step_between : Text → Text → Text
step_between from to = answer_between (names from) (names to)

abbrev Parts : List Text → List Text → Text → Type 0
Parts from to answer =
    (common gone down : List Text) × (from ≡ common ++ gone)
    × (to ≡ common ++ down)
    × (answer ≡ join slash (steps_back gone ++ down))

answer_between-Parts : (from to : List Text) → Parts from to (answer_between from to)
answer_between-Parts [] to = ([], [], to, refl, refl, refl)
answer_between-Parts (g ∷ gone) [] = ([], g ∷ gone, [], refl, refl, refl)
answer_between-Parts (g ∷ gone) (n ∷ down) =
    let (common, up, rest, a, b, c) = answer_between-Parts gone down in
    if-holds (Parts (g ∷ gone) (n ∷ down)) (text_eq g n) (answer_between gone down)
      (join slash (steps_back (g ∷ gone) ++ n ∷ down))
      (λ e. (g ∷ common, up, rest, ap (λ ns. g ∷ ns) a, cc (text_eq→eq g n e, b), c))
      (λ _. ([], g ∷ gone, n ∷ down, refl, refl, refl))

pub step_between-IsRelative :
    (from to : Text) → IsRelative (λ path. false) from to (step_between from to)
step_between-IsRelative from to = inr (answer_between-Parts (names from) (names to))
