-- ===== src/Auth/Claims.antt =====
-- What `validateClaims` of src/beacon/auth.js lets pass, said apart from its tests.
use mathlib.Core.List.{Memᴰ}
use mathlib.Core.List.Memᴰ.{head, tail}
use ender.Prelude.{
  sym, ◌∙◌, [], ◌∷◌, ◌++◌, ◌&&◌, text_eq_iff, Bool-cases, ◌⊎◌, inl, inr, ℕ, Bool, true, false,
  Option, none, some, Text, lit, List, if-holds, ◌≡◌, refl, ap, arith,
}
use ender.Json.{
  Json, Items, null, boolean, number, string, array, object, natural, negative, fraction,
}
use ender.Json.Read.{is_truthy, truthy, same_value, array_items, item_list}
use ender.Auth.{
  Platform, ok, Config, claim, holds_text, truthy_list, audiences, compares, is_issuer, is_audience,
  validate_claims,
}

-- The audience is not configured, or it is the claim `aud`, one of the items of that claim, or `azp`.
abbrev pub IsMeantFor : Text → Json → Type 0
IsMeantFor audience payload =
    (audience ≡ [])
    ⊎ (claim (lit "aud") payload ≡ some (string audience))
    ⊎ ((js : Items) × (claim (lit "aud") payload ≡ some (array js))
        × Memᴰ (string audience) (item_list js))
    ⊎ (claim (lit "azp") payload ≡ some (string audience))

-- The issuer is not configured, or it is the claim `iss`.
abbrev pub IsIssuedBy : Option Text → Json → Type 0
IsIssuedBy issuer payload =
    (issuer ≡ none)
    ⊎ ((s : Text) × (issuer ≡ some s) × (claim (lit "iss") payload ≡ some (string s)))

-- What is asked of the claims at a time in seconds. An `exp` or `nbf` that is absent, 0, or no number
-- (of which no comparison holds) asks for nothing.
pub record AreValid (p : Platform) (now : ℕ) (config : Config) (payload : Json) : Type 0 where
  pub subject : is_truthy (claim (lit "sub") payload) ≡ true
  pub unexpired :
      (j : Json) → claim (lit "exp") payload ≡ some j → truthy j ≡ true → p.at_most j now ≡ false
  pub begun :
      (j : Json) → claim (lit "nbf") payload ≡ some j → truthy j ≡ true → p.above j now ≡ false
  pub issued : IsIssuedBy config.issuer payload
  pub meant : IsMeantFor config.audience payload

same_text :
    (o : Option Json) (s : Text) → same_value o (some (string s)) ≡ true → o ≡ some (string s)
unfolding same_value
same_text none s h = cc h
same_text (some null) s h = cc h
same_text (some (boolean b)) s h = cc h
same_text (some (number (natural n))) s h = cc h
same_text (some (number (negative n))) s h = cc h
same_text (some (number (fraction t))) s h = cc h
same_text (some (string t)) s h = ap (λ t. some (string t)) ((text_eq_iff t s).0 h)
same_text (some (array js)) s h = cc h
same_text (some (object fs)) s h = cc h

some-inj : {x y : Json} → some x ≡ some y → x ≡ y
some-inj e = cc e

holds_text-Mem : (s : Text) (js : List Json) → holds_text s js ≡ true → Memᴰ (string s) js
unfolding holds_text
holds_text-Mem s [] h = cc h
holds_text-Mem s (j ∷ js) h = elim (Bool-cases (same_value (some j) (some (string s)))) [
  | inl e ↦ head (sym (some-inj (same_text (some j) s e)))
  | inr e ↦ tail (holds_text-Mem s js (sym (rw e refl) ∙ h))
]

holds_text-append :
    (s : Text) (xs ys : List Json)
    → holds_text s (xs ++ ys) ≡ true
    → (holds_text s xs ≡ true) ⊎ (holds_text s ys ≡ true)
unfolding holds_text
holds_text-append s [] ys h = inr h
holds_text-append s (x ∷ xs) ys h = elim (Bool-cases (same_value (some x) (some (string s)))) [
  | inl e ↦ inl (rw e refl)
  | inr e ↦ elim (holds_text-append s xs ys (sym (rw e refl) ∙ h)) [
    | inl i ↦ inl (rw e i)
    | inr i ↦ inr i
  ]
]

holds_text-one :
    (s : Text) (o : Option Json) → holds_text s (truthy_list o) ≡ true → o ≡ some (string s)
unfolding holds_text
holds_text-one s none h = cc h
holds_text-one s (some j) h =
    if-holds (λ js. holds_text s js ≡ true → some j ≡ some (string s)) (truthy j) (j ∷ []) []
      (λ _ k. same_text (some j) s (ground arith)) (λ _ k. cc k) h

audiences-some :
    (s : Text) (o : Option Json)
    → holds_text s (audiences o) ≡ true
    → (o ≡ some (string s))
      ⊎ ((js : Items) × (o ≡ some (array js)) × Memᴰ (string s) (item_list js))
unfolding array_items
audiences-some s none h = inl (holds_text-one s none h)
audiences-some s (some (array js)) h = inr (js, refl, holds_text-Mem s (item_list js) h)
audiences-some s (some null) h = inl (holds_text-one s (some null) h)
audiences-some s (some (boolean b)) h = inl (holds_text-one s (some (boolean b)) h)
audiences-some s (some (number n)) h = inl (holds_text-one s (some (number n)) h)
audiences-some s (some (string t)) h = inl (holds_text-one s (some (string t)) h)
audiences-some s (some (object fs)) h = inl (holds_text-one s (some (object fs)) h)

is_audience-IsMeantFor :
    (audience : Text) (payload : Json)
    → is_audience audience payload ≡ true
    → IsMeantFor audience payload
is_audience-IsMeantFor [] payload h = inl refl
is_audience-IsMeantFor (c ∷ s) payload h =
    elim (holds_text-append (c ∷ s) (audiences (claim (lit "aud") payload))
      (truthy_list (claim (lit "azp") payload)) h) [
        | inr i ↦ inr (inr (inr (holds_text-one (c ∷ s) (claim (lit "azp") payload) i)))
        | inl i ↦ elim (audiences-some (c ∷ s) (claim (lit "aud") payload) i) [
          | inl e ↦ inr (inl e)
          | inr p ↦ inr (inr (inl p))
        ]
      ]

is_issuer-IsIssuedBy :
    (issuer : Option Text) (payload : Json)
    → is_issuer issuer payload ≡ true
    → IsIssuedBy issuer payload
is_issuer-IsIssuedBy none payload h = inl refl
is_issuer-IsIssuedBy (some s) payload h = inr (s, refl, same_text (claim (lit "iss") payload) s h)

compares-false :
    (test : Json → ℕ → Bool) (o : Option Json) (now : ℕ) (j : Json)
    → compares test o now ≡ false
    → o ≡ some j
    → truthy j ≡ true
    → test j now ≡ false
compares-false test none now j h e t = cc e
compares-false test (some i) now j h e t =
    let same = some-inj e in
    let test_false : (truthy j && test j now) ≡ false =
      ap (λ i. truthy i && test i now) (sym same) ∙ h in
    ground (arith, t, test_false)

-- The tests that `validateClaims` makes, each passed.
validate_claims-tests :
    (p : Platform) (now : ℕ) (config : Config) (payload : Json) {u : Unit}
    → validate_claims p now config payload ≡ ok u
    → (is_truthy (claim (lit "sub") payload) ≡ true)
      × (compares (p.at_most) (claim (lit "exp") payload) now ≡ false)
      × (compares (p.above) (claim (lit "nbf") payload) now ≡ false)
      × (is_issuer config.issuer payload ≡ true)
      × (is_audience config.audience payload ≡ true)
unfolding validate_claims
validate_claims-tests p now config payload h = ground arith

pub validate_claims-AreValid :
    (p : Platform) (now : ℕ) (config : Config) (payload : Json) {u : Unit}
    → validate_claims p now config payload ≡ ok u
    → AreValid p now config payload
validate_claims-AreValid p now config payload h =
    let (s, e, n, i, a) = validate_claims-tests p now config payload h in
    record {
      subject = s;
      unexpired = λ j. compares-false (p.at_most) (claim (lit "exp") payload) now j e;
      begun = λ j. compares-false (p.above) (claim (lit "nbf") payload) now j n;
      issued = is_issuer-IsIssuedBy config.issuer payload i;
      meant = is_audience-IsMeantFor config.audience payload a;
    }
