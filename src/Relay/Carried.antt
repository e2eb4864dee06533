-- ===== src/Relay/Carried.antt =====
-- What of a client's call reaches the server, said apart from `PendingRequest` and `sanitizeHeaders`
-- of src/pillar/server.js.
use ender.Prelude.{
  ℕ, true, false, List, [], ◌∷◌, Option, none, some, Text, lit, lower, join, text_eq, text_eq_iff,
  includes, lookup, lookup-insert, Map, insert, if-holds, if◌then◌else◌, Bool-cases, inl, inr, ◌≡◌,
  refl, ap, ◌∙◌, sym, arith,
}
use ender.Relay.{
  Base64, Wire, Input, HeaderValue, one, many, to_wire, new_request, sanitize_onto,
  buffer_to_base64, add_header, header_text, is_dropped,
}

-- The headers that stay behind.
abbrev left_behind : List Text
left_behind =
    lit "host"
    ∷ lit "connection"
    ∷ lit "keep-alive"
    ∷ lit "proxy-authenticate"
    ∷ lit "proxy-authorization"
    ∷ lit "te"
    ∷ lit "trailer"
    ∷ lit "transfer-encoding"
    ∷ lit "upgrade"
    ∷ lit "content-length"
    ∷ []

abbrev shown_value : HeaderValue → Text
shown_value (one s) = s
shown_value (many ss) = join (lit ", ") ss

abbrev or_that : Option Text → Option Text → Option Text
or_that (some s) t = some s
or_that none t = t

-- The last value under a name, letter case aside.
unfoldable pub last_value : Text → List (Text × HeaderValue) → Option Text
last_value k [] = none
last_value k ((name, v) ∷ rest) =
    or_that (last_value k rest) (if text_eq (lower name) k then some (shown_value v) else none)

abbrev pub header_of : List (Text × HeaderValue) → Text → Option Text
header_of hs k = if includes left_behind k then none else last_value k hs

abbrev pub encoded : Base64 → List ℕ → Text
encoded b [] = []
encoded b (x ∷ xs) = b.encode (x ∷ xs)

pub record Carries (b : Base64) (id : Text) (input : Input) (w : Wire) : Type 0 where
  pub same_id : w.id ≡ id
  pub same_method : w.method ≡ input.method
  pub same_path : w.path ≡ input.path
  pub same_body : w.body_base64 ≡ encoded b input.body
  pub same_headers : (k : Text) → lookup k w.headers ≡ header_of input.headers k

module _ (k : Text) where
  lookup-add_header :
      (name : Text) (v : HeaderValue) (next : Map Text)
      → is_dropped k ≡ false
      → lookup k (add_header name v next)
        ≡ or_that (if text_eq name k then some (shown_value v) else none) (lookup k next)
  lookup-add_header name v next h = elim (Bool-cases (text_eq name k)) [
    | inl e ↦
        let kept : is_dropped name ≡ false = ap is_dropped ((text_eq_iff name k).0 e) ∙ h in
        rw (kept, lookup-insert, e) (ap some (shown_same v))
    | inr e ↦ rw e (
        if-holds (λ m. lookup k m ≡ lookup k next) (is_dropped name) next
          (insert name (header_text v) next) (λ _. refl) (λ _. rw (lookup-insert, e) refl))
  ]
    where
      shown_same : (v : HeaderValue) → header_text v ≡ shown_value v
      shown_same (one s) = refl
      shown_same (many ss) = refl

  or_that_assoc : (a b c : Option Text) → or_that a (or_that b c) ≡ or_that (or_that a b) c
  or_that_assoc none b c = refl
  or_that_assoc (some s) b c = refl

  -- How `sanitizeHeaders` changes what is found under a name.
  lookup-sanitize_onto :
      (hs : List (Text × HeaderValue)) (next : Map Text)
      → is_dropped k ≡ false
      → lookup k (sanitize_onto next hs) ≡ or_that (last_value k hs) (lookup k next)
  unfolding sanitize_onto last_value
  lookup-sanitize_onto [] next h = refl
  lookup-sanitize_onto ((name, v) ∷ rest) next h =
      lookup-sanitize_onto rest (add_header (lower name) v next) h
      ∙ (ap (or_that (last_value k rest)) (lookup-add_header (lower name) v next h)
          ∙ or_that_assoc (last_value k rest) _ (lookup k next))

  lookup-add_dropped :
      (name : Text) (v : HeaderValue) (next : Map Text)
      → is_dropped k ≡ true
      → lookup k (add_header name v next) ≡ lookup k next
  lookup-add_dropped name v next h = elim (Bool-cases (is_dropped name)) [
    | inl e ↦ rw e refl
    | inr e ↦ elim (Bool-cases (text_eq name k)) [
      | inl t ↦
          let dropped : is_dropped name ≡ true = ap is_dropped ((text_eq_iff name k).0 t) ∙ h in
          cc (e, dropped)
      | inr t ↦ rw (e, lookup-insert, t) refl
    ]
  ]

  lookup-dropped :
      (hs : List (Text × HeaderValue)) (next : Map Text)
      → is_dropped k ≡ true
      → lookup k (sanitize_onto next hs) ≡ lookup k next
  unfolding sanitize_onto
  lookup-dropped [] next h = refl
  lookup-dropped ((name, v) ∷ rest) next h =
      lookup-dropped rest (add_header (lower name) v next) h
      ∙ lookup-add_dropped (lower name) v next h

  dropped_is_left : is_dropped k ≡ includes left_behind k
  unfolding includes
  dropped_is_left = ground (arith, text_eq_iff k (lit "host"), text_eq_iff (lit "host") k)

  or_that-none : (o : Option Text) → or_that o none ≡ o
  or_that-none none = refl
  or_that-none (some s) = refl

  lookup-sanitized :
      (hs : List (Text × HeaderValue)) → lookup k (sanitize_onto [] hs) ≡ header_of hs k
  unfolding lookup
  lookup-sanitized hs = elim (Bool-cases (is_dropped k)) [
    | inl e ↦ rw (sym dropped_is_left, e) (lookup-dropped hs [] e)
    | inr e ↦
        rw (sym dropped_is_left, e) (lookup-sanitize_onto hs [] e ∙ or_that-none (last_value k hs))
  ]

encoded-same : (b : Base64) (xs : List ℕ) → buffer_to_base64 b xs ≡ encoded b xs
encoded-same b [] = refl
encoded-same b (x ∷ xs) = refl

pub new_request-Carries :
    (b : Base64) (now id : Text) (input : Input)
    → Carries b id input (to_wire (new_request b now id input))
unfolding new_request
new_request-Carries b now id input = record {
  same_id = refl;
  same_method = refl;
  same_path = refl;
  same_body = encoded-same b input.body;
  same_headers = λ k. lookup-sanitized k input.headers;
}
