-- ===== src/Json/Clean.antt =====
-- What a cleaned text is: src/utils/jsonSafe.js.
use mathlib.Core.Path.{subst}
use ender.Prelude.{
  ◌<◌, ◌≤◌, ◌⊎◌, All, ℕ, Bool, true, false, not, ◌&&◌, ◌∷◌, [], Text, ◌≡◌, refl, arith,
  if◌then◌else◌, ◌==◌, ap, Bool-cases, inl, inr,
}
use ender.Json.{
  Json, null, boolean, number, string, array, object, Items, nil, cons, Fields, end, field, is_high,
  is_low, is_control, starts_low, drop_nul, blank_controls, replace_high, replace_low,
  sanitize_string, sanitize, sanitize_items, sanitize_fields,
}

-- A unit that storage takes: not NUL, and no control unit but tab, line feed and carriage return.
abbrev is_plain : ℕ → Bool
is_plain c = not (c == 0) && not (is_control c)

-- Every surrogate stands in a pair; the flag says that a low one is due.
pub is_clean : Bool → Text → Bool
is_clean due [] = not due
is_clean due (c ∷ s) =
    (if due then is_low c else not (is_low c)) && is_plain c && is_clean (is_high c) s

all_plain : Text → Bool
all_plain [] = true
all_plain (c ∷ s) = is_plain c && all_plain s

blank-plain : (c : ℕ) → (c == 0) ≡ false → is_plain (if is_control c then 32 else c) ≡ true
blank-plain c h = elim (Bool-cases (is_control c)) [
  | inl e ↦ rw e (unfold is_control in refl)
  | inr e ↦ rw (e, h, e) refl
]

all_plain-blank : (s : Text) → all_plain (blank_controls (drop_nul s)) ≡ true
unfolding all_plain blank_controls drop_nul
all_plain-blank [] = refl
all_plain-blank (c ∷ s) = elim (Bool-cases (c == 0)) [
  | inl e ↦ rw e (all_plain-blank s)
  | inr e ↦ rw e (rw (blank-plain c e) (all_plain-blank s))
]

clean-replace :
    (due : Bool) (s : Text)
    → all_plain s ≡ true
    → (due ≡ true → starts_low s ≡ true)
    → is_clean due (replace_low due (replace_high s)) ≡ true
unfolding is_clean all_plain replace_low replace_high is_control is_low is_high
clean-replace true [] h k = cc (k refl)
clean-replace false [] h k = refl
clean-replace true (c ∷ s) h k =
    ground (arith, k refl, clean-replace (is_high c && starts_low s) s, clean-replace false s)
clean-replace false (c ∷ s) h k = ground (arith, clean-replace true s, clean-replace false s)

sanitize_string-is_clean : (s : Text) → is_clean false (sanitize_string s) ≡ true
unfolding sanitize_string
sanitize_string-is_clean s =
    clean-replace false (blank_controls (drop_nul s)) (all_plain-blank s) (λ e. cc)

-- Well-formed UTF-16: a unit from 0xd800 to 0xdbff and the one from 0xdc00 to 0xdfff that follows it
-- make a pair, and no other such units occur.
pub data IsUtf16 : Text → Type 0 where
  ended : IsUtf16 []
  unit : {s : Text} (c : ℕ) → (c < 0xd800) ⊎ (0xe000 ≤ c) → IsUtf16 s → IsUtf16 (c ∷ s)
  pair :
      {s : Text} (c d : ℕ)
      → (0xd800 ≤ c) × (c < 0xdc00)
      → (0xdc00 ≤ d) × (d < 0xe000)
      → IsUtf16 s
      → IsUtf16 (c ∷ d ∷ s)

-- No control unit below 32 but tab, line feed and carriage return.
abbrev pub IsPrinted : ℕ → Type 0
IsPrinted c = (32 ≤ c) ⊎ (c ≡ 9) ⊎ (c ≡ 10) ⊎ (c ≡ 13)

single : (c : ℕ) → is_high c ≡ false → is_low c ≡ false → (c < 0xd800) ⊎ (0xe000 ≤ c)
unfolding is_high is_low
single = ground arith

high_range : (c : ℕ) → is_high c ≡ true → (0xd800 ≤ c) × (c < 0xdc00)
unfolding is_high
high_range = ground arith

low_range : (c : ℕ) → is_low c ≡ true → (0xdc00 ≤ c) × (c < 0xe000) × (is_high c ≡ false)
unfolding is_low is_high
low_range = ground arith

printed : (c : ℕ) → is_plain c ≡ true → IsPrinted c
unfolding is_control
printed = ground arith

last_is_single : (c : ℕ) → is_clean (is_high c) [] ≡ true → is_high c ≡ false
unfolding is_clean
last_is_single c h = ground arith

-- What a clean text says of its first unit and of the rest.
clean_parts :
    (due : Bool) (c : ℕ) (s : Text)
    → is_clean due (c ∷ s) ≡ true
    → (is_low c ≡ due) × (is_plain c ≡ true) × (is_clean (is_high c) s ≡ true)
unfolding is_clean
clean_parts due c s h = ground arith

clean-IsUtf16 : (s : Text) → is_clean false s ≡ true → IsUtf16 s
clean-IsUtf16 [] h = ended
clean-IsUtf16 (c ∷ []) h =
    let (low, p, rest) = clean_parts false c [] h in
    unit c (single c (last_is_single c rest) low) ended
clean-IsUtf16 (c ∷ d ∷ s) h =
    let (low, p, rest) = clean_parts false c (d ∷ s) h in
    let Clean : Bool → Text → Type 0 = λ b t. is_clean b t ≡ true in
    elim (Bool-cases (is_high c)) [
      | inl e ↦
          let (low', q, more) = clean_parts true d s (subst (λ b. Clean b (d ∷ s)) e rest) in
          let (from, below, e') = low_range d low' in
          pair c d (high_range c e) (from, below) (clean-IsUtf16 s (subst (λ b. Clean b s) e' more))
      | inr e ↦
          unit c (single c e low) (clean-IsUtf16 (d ∷ s) (subst (λ b. Clean b (d ∷ s)) e rest))
    ]

clean-IsPrinted : (due : Bool) (s : Text) → is_clean due s ≡ true → All IsPrinted s
clean-IsPrinted due [] h = tt
clean-IsPrinted due (c ∷ s) h =
    let (low, p, rest) = clean_parts due c s h in (printed c p, clean-IsPrinted (is_high c) s rest)

-- sanitizeString returns well-formed UTF-16, each unit of which is 32 or more, or a tab, a line feed
-- or a carriage return.
pub sanitize_string-clean :
    (s : Text) → IsUtf16 (sanitize_string s) × All IsPrinted (sanitize_string s)
sanitize_string-clean s = (
  clean-IsUtf16 (sanitize_string s) (sanitize_string-is_clean s),
  clean-IsPrinted false (sanitize_string s) (sanitize_string-is_clean s),
)

drop_nul_clean : (due : Bool) (s : Text) → is_clean due s ≡ true → drop_nul s ≡ s
unfolding is_clean drop_nul
drop_nul_clean due [] h = refl
drop_nul_clean due (c ∷ s) h = ground (arith, drop_nul_clean (is_high c) s)

blank_clean : (due : Bool) (s : Text) → is_clean due s ≡ true → blank_controls s ≡ s
unfolding is_clean blank_controls
blank_clean due [] h = refl
blank_clean due (c ∷ s) h = ground (arith, blank_clean (is_high c) s)

clean_starts : (s : Text) → is_clean true s ≡ true → starts_low s ≡ true
unfolding is_clean
clean_starts [] h = cc
clean_starts (c ∷ s) h = ground arith

high_clean : (due : Bool) (s : Text) → is_clean due s ≡ true → replace_high s ≡ s
unfolding is_clean replace_high
high_clean due [] h = refl
high_clean due (c ∷ s) h = ground (arith, high_clean (is_high c) s, clean_starts s)

low_clean : (due : Bool) (s : Text) → is_clean due s ≡ true → replace_low due s ≡ s
unfolding is_clean replace_low
low_clean due [] h = refl
low_clean due (c ∷ s) h = ground (arith, low_clean (is_high c) s)

-- sanitizeString leaves a text alone that is clean already.
pub sanitize_string_of_clean : (s : Text) → is_clean false s ≡ true → sanitize_string s ≡ s
unfolding sanitize_string
sanitize_string_of_clean s h =
    rw (drop_nul_clean false s h)
      (rw (blank_clean false s h) (rw (high_clean false s h) (low_clean false s h)))

pub sanitize_string_idem : (s : Text) → sanitize_string (sanitize_string s) ≡ sanitize_string s
sanitize_string_idem s = sanitize_string_of_clean (sanitize_string s) (sanitize_string-is_clean s)

mutual
  unfolding sanitize

  idem_value : (j : Json) → sanitize (sanitize j) ≡ sanitize j
  idem_value null = refl
  idem_value (boolean b) = refl
  idem_value (number n) = refl
  idem_value (string s) = ap string (sanitize_string_idem s)
  idem_value (array xs) = ap array (idem_items xs)
  idem_value (object fs) = ap object (idem_fields fs)

  idem_items : (xs : Items) → sanitize_items (sanitize_items xs) ≡ sanitize_items xs
  idem_items nil = refl
  idem_items (cons x xs) = cc (idem_value x, idem_items xs)

  idem_fields : (fs : Fields) → sanitize_fields (sanitize_fields fs) ≡ sanitize_fields fs
  idem_fields end = refl
  idem_fields (field k v fs) = cc (idem_value v, idem_fields fs)

-- sanitizeJsonValue applied twice is sanitizeJsonValue applied once, at any depth of nesting.
pub sanitize_idem : (j : Json) → sanitize (sanitize j) ≡ sanitize j
sanitize_idem j = idem_value j
