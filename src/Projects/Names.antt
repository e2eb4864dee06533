-- ===== src/Projects/Names.antt =====
-- The names that slugify of src/runtime/projectManager.js makes, of which project ids and so the
-- names of project files are.
use ender.Prelude.{
  Bool, true, false, ◌&&◌, [], ◌∷◌, Text, All, if-holds, is_empty, text_or, trim, ◌==◌, ◌≡◌, refl,
  if◌then◌else◌,
}
use ender.Projects.{is_slug, dashed, strip_start, strip_end, slugify}

-- Every unit is one of [a-z0-9._-].
abbrev pub IsSlug : Text → Type 0
IsSlug s = All (λ c. is_slug c ≡ true) s

dash_IsSlug : is_slug 45 ≡ true
unfolding is_slug
dash_IsSlug = refl

dashed-IsSlug : (after_bad : Bool) (s : Text) → IsSlug (dashed after_bad s)
unfolding dashed
dashed-IsSlug after_bad [] = tt
dashed-IsSlug after_bad (c ∷ s) =
    if-holds IsSlug (is_slug c) (c ∷ dashed false s)
      (if after_bad then dashed true s else 45 ∷ dashed true s) (λ e. (e, dashed-IsSlug false s))
      (λ _.
        if-holds IsSlug after_bad (dashed true s) (45 ∷ dashed true s) (λ _. dashed-IsSlug true s)
          (λ _. (dash_IsSlug, dashed-IsSlug true s)))

strip_start-IsSlug : (s : Text) → IsSlug s → IsSlug (strip_start s)
unfolding strip_start
strip_start-IsSlug [] h = tt
strip_start-IsSlug (c ∷ s) (p, h) =
    if-holds IsSlug (c == 45) (strip_start s) (c ∷ s) (λ _. strip_start-IsSlug s h) (λ _. (p, h))

strip_end-IsSlug : (s : Text) → IsSlug s → IsSlug (strip_end s)
unfolding strip_end
strip_end-IsSlug [] h = tt
strip_end-IsSlug (c ∷ s) (p, h) =
    if-holds IsSlug (c == 45 && is_empty (strip_end s)) [] (c ∷ strip_end s) (λ _. tt)
      (λ _. (p, strip_end-IsSlug s h))

starts_with_dash : Text → Bool
starts_with_dash [] = false
starts_with_dash (c ∷ s) = c == 45

text_or-IsSlug : (s d : Text) → IsSlug s → IsSlug d → IsSlug (text_or s d)
text_or-IsSlug [] d h k = k
text_or-IsSlug (c ∷ s) d h k = h

-- slugify gives units of [a-z0-9._-] only, whatever the text, if the fallback has no others.
pub slugify-IsSlug :
    (to_lower : Text → Text) (s fallback : Text)
    → IsSlug fallback
    → IsSlug (slugify to_lower s fallback)
unfolding slugify
slugify-IsSlug to_lower s fallback h =
    text_or-IsSlug (strip_end (strip_start (dashed false (to_lower (trim s))))) fallback
      (strip_end-IsSlug (strip_start (dashed false (to_lower (trim s)))) (
        strip_start-IsSlug (dashed false (to_lower (trim s)))
          (dashed-IsSlug false (to_lower (trim s)))))
      h
