-- ===== src/Ledger/Lists.antt =====
-- The lists that `normalizeStringArray` of src/runtime/taskLedgerManager.js gives.
use ender.Prelude.{
  Bool, true, false, ◌||◌, List, [], ◌∷◌, ◌++◌, Option, Text, trim, text_eq_iff, is_empty, includes,
  AreDistinct, if◌then◌else◌, ◌≡◌, refl, arith,
}
use ender.Json.{Json}
use ender.Ledger.Normalize.{collect, normalize_strings, raw_items}

includes-append :
    (xs ys : List Text) (x : Text) → includes (xs ++ ys) x ≡ (includes xs x || includes ys x)
unfolding includes
includes-append [] ys x = refl
includes-append (y ∷ xs) ys x = ground (arith, includes-append xs ys x)

distinct-append :
    (xs : List Text) (x : Text)
    → AreDistinct xs
    → includes xs x ≡ false
    → is_empty x ≡ false
    → AreDistinct (xs ++ x ∷ [])
unfolding includes
distinct-append [] x d h e = (refl, e, tt)
distinct-append (y ∷ xs) x d h e = (
  ground (arith, includes-append xs (x ∷ []) y, text_eq_iff x y, text_eq_iff y x),
  d.1,
  distinct-append xs x d.2 (ground arith) e,
)

if-distinct :
    (b : Bool) (xs ys : List Text)
    → AreDistinct xs
    → (b ≡ false → AreDistinct ys)
    → AreDistinct (if b then xs else ys)
if-distinct true xs ys p q = p
if-distinct false xs ys p q = q refl

collect-distinct : (items xs : List Text) → AreDistinct items → AreDistinct (collect items xs)
unfolding collect
collect-distinct items [] d = d
collect-distinct items (x ∷ xs) d =
    let next =
      if is_empty (trim x) || includes items (trim x) then items else items ++ trim x ∷ [] in
    collect-distinct next xs (
      if-distinct (is_empty (trim x) || includes items (trim x)) items (items ++ trim x ∷ []) d
        (λ h. distinct-append items (trim x) d (ground arith) (ground arith)))

-- The list that is read from an input has no empty text, and no text twice.
pub normalize_strings-distinct : (v : Option Json) → AreDistinct (normalize_strings v)
unfolding normalize_strings
normalize_strings-distinct v = collect-distinct [] (raw_items v) tt

if-includes :
    (b : Bool) (xs ys : List Text) (x : Text)
    → (b ≡ true → includes xs x ≡ true)
    → (b ≡ false → includes ys x ≡ true)
    → includes (if b then xs else ys) x ≡ true
if-includes true xs ys x p q = p refl
if-includes false xs ys x p q = q refl

collect-keeps :
    (items xs : List Text) (y : Text)
    → includes items y ≡ true
    → includes (collect items xs) y ≡ true
unfolding collect
collect-keeps items [] y h = h
collect-keeps items (x ∷ xs) y h =
    let next =
      if is_empty (trim x) || includes items (trim x) then items else items ++ trim x ∷ [] in
    collect-keeps next xs y (
      if-includes (is_empty (trim x) || includes items (trim x)) items (items ++ trim x ∷ []) y
        (λ _. h) (λ _. ground (arith, includes-append items (trim x ∷ []) y)))

collect-finds :
    (items before after : List Text) (y : Text)
    → is_empty (trim y) ≡ false
    → includes (collect items (before ++ y ∷ after)) (trim y) ≡ true
unfolding collect includes
collect-finds items [] after y h =
    let next =
      if is_empty (trim y) || includes items (trim y) then items else items ++ trim y ∷ [] in
    collect-keeps next after (trim y) (
      if-includes (is_empty (trim y) || includes items (trim y)) items (items ++ trim y ∷ [])
        (trim y) (λ p. ground arith)
        (λ _.
          ground
            (arith, includes-append items (trim y ∷ []) (trim y), text_eq_iff (trim y) (trim y))))
collect-finds items (x ∷ before) after y h =
    collect-finds
      (if is_empty (trim x) || includes items (trim x) then items else items ++ trim x ∷ []) before
      after y h

-- No item of the input is lost but the blank ones: each is in the list, trimmed.
pub normalize_strings_complete :
    (v : Option Json) (before : List Text) (y : Text) (after : List Text)
    → raw_items v ≡ before ++ y ∷ after
    → is_empty (trim y) ≡ false
    → includes (normalize_strings v) (trim y) ≡ true
unfolding normalize_strings
normalize_strings_complete v before y after e h = rw e (collect-finds [] before after y h)
