-- ===== src/Auth/Accepts.antt =====
-- Whom src/beacon/auth.js lets in.
use ender.Prelude.{
  ℕ, Bool, true, false, Option, none, some, Text, lit, List, is_empty, if-holds, ◌≡◌, refl, ap,
  if◌then◌else◌,
}
use ender.Json.{Json}
use ender.Json.Read.{member}
use ender.Auth.{
  Platform, Result, ok, throws, Jwt, Cache, Fetched, Config, parse_jwt, get_keys, find_key,
  validate_claims,
}
use ender.Auth.Users.{
  is_rs256, claims_of, after_verify, with_key, with_keys, verify_parsed, verify_oidc_token,
  get_bearer_token, user_auth, Headers, User, AuthReply, goes_on, unauthorized, reply_of, user_of,
}
use Prim.Native.Nat.{◌/◌}
use ender.Auth.Claims.{AreValid, validate_claims-AreValid}

-- A token that the provider signed with one of its keys.
pub record IsSigned (p : Platform) (now : ℕ) (f : Fetched) (c : Cache) (token : Text) (t : Jwt)
    : Type 0 where
  pub parsed : parse_jwt p token ≡ ok t
  pub algorithm : is_rs256 t ≡ true
  pub keys : List Json
  pub key : Json
  pub given_keys : (get_keys now f c).1 ≡ ok keys
  pub has_key : find_key (member (lit "kid") t.header) keys ≡ some key
  pub signed : p.verify key t.signing_input t.signature ≡ some true

claims_of-ok :
    (p : Platform) (now : ℕ) (config : Config) (t : Jwt) (r : Result Unit) {j : Json}
    → validate_claims p now config t.payload ≡ r
    → claims_of t r ≡ ok j
    → AreValid p now config t.payload × (j ≡ t.payload)
claims_of-ok p now config t (ok u) e h = (validate_claims-AreValid p now config t.payload e, cc h)
claims_of-ok p now config t (throws m) e h = cc h

after_verify-ok :
    (p : Platform) (now : ℕ) (config : Config) (t : Jwt) (o : Option Bool) {j : Json}
    → after_verify p now config t o ≡ ok j
    → (o ≡ some true) × AreValid p (now / 1000) config t.payload × (j ≡ t.payload)
after_verify-ok p now config t none h = cc h
after_verify-ok p now config t (some false) h = cc h
after_verify-ok p now config t (some true) h =
    let (v, e) = claims_of-ok p (now / 1000) config t _ refl h in (refl, v, e)

-- A token that is let in, with the claims that it carries.
pub record IsLetIn (p : Platform) (now : ℕ) (config : Config) (f : Fetched) (c : Cache)
    (token : Text) (claims : Json) : Type 0 where
  pub jwt : Jwt
  pub is_signed : IsSigned p now f c token jwt
  pub are_valid : AreValid p (now / 1000) config jwt.payload
  pub carried : claims ≡ jwt.payload

module _ (p : Platform) (now : ℕ) (config : Config) (f : Fetched) (c : Cache) (token : Text) where
  with_key-ok :
      (t : Jwt) (keys : List Json) (o : Option Json) {j : Json}
      → parse_jwt p token ≡ ok t
      → is_rs256 t ≡ true
      → (get_keys now f c).1 ≡ ok keys
      → find_key (member (lit "kid") t.header) keys ≡ o
      → with_key p now config t o ≡ ok j
      → IsLetIn p now config f c token j
  with_key-ok t keys none a b d e h = cc h
  with_key-ok t keys (some key) a b d e h =
      let (s, v, q) = after_verify-ok p now config t (p.verify key t.signing_input t.signature) h in
      record {
        jwt = t;
        is_signed = record {
          parsed = a;
          algorithm = b;
          keys = keys;
          key = key;
          given_keys = d;
          has_key = e;
          signed = s;
        };
        are_valid = v;
        carried = q;
      }

  with_keys-ok :
      (t : Jwt) (r : Cache × Result (List Json)) {j : Json}
      → parse_jwt p token ≡ ok t
      → is_rs256 t ≡ true
      → (get_keys now f c).1 ≡ r.1
      → (with_keys p now config t r).1 ≡ ok j
      → IsLetIn p now config f c token j
  with_keys-ok t (x, throws m) a b d h = cc h
  with_keys-ok t (x, ok keys) a b d h =
      with_key-ok t keys (find_key (member (lit "kid") t.header) keys) a b d refl h

  verify_parsed-ok :
      (r : Result Jwt) {j : Json}
      → parse_jwt p token ≡ r
      → (verify_parsed p now config f c r).1 ≡ ok j
      → IsLetIn p now config f c token j
  verify_parsed-ok (throws m) a h = cc h
  verify_parsed-ok (ok t) {j} a h =
      if-holds (λ (x : Cache × Result Json). x.1 ≡ ok j → IsLetIn p now config f c token j)
        (is_rs256 t) (with_keys p now config t (get_keys now f c))
        (c, throws (lit "unsupported_token_alg"))
        (λ b k. with_keys-ok t (get_keys now f c) a b refl k) (λ _ k. cc k) h

abbrev GoesOn : Platform → ℕ → Config → Fetched → Cache → Text → User → Type 0
GoesOn p now config f c token u =
    (claims : Json) × IsLetIn p now config f c token claims × (u ≡ user_of claims)

replied :
    (p : Platform) (now : ℕ) (config : Config) (f : Fetched) (c : Cache) (token : Text) (u : User)
    (r : Cache × Result Json)
    → verify_oidc_token p now config f c token ≡ r
    → (reply_of r).1 ≡ goes_on u
    → GoesOn p now config f c token u
unfolding verify_oidc_token
replied p now config f c token u (x, throws m) e h = cc h
replied p now config f c token u (x, ok claims) e h = (
  claims,
  verify_parsed-ok p now config f c token (parse_jwt p token) refl (ap (λ r. r.1) e),
  cc h,
)

-- Outside dev mode, a request goes on only with the claims of a token whose algorithm is RS256 and
-- whose signature one of the provider's keys verifies. They have a subject; an `exp` that is given, not
-- 0, is not at or before now, and such an `nbf` is not after now; the issuer and the audience, where
-- configured, are theirs. The user is the one of the claims.
pub user_auth_lem :
    (p : Platform) (now : ℕ) (config : Config) (f : Fetched) (h : Headers) (c : Cache) (u : User)
    → config.is_dev ≡ false
    → (user_auth p now config f h c).1 ≡ goes_on u
    → (claims : Json) × IsLetIn p now config f c (get_bearer_token (h (lit "authorization"))) claims
      × (u ≡ user_of claims)
unfolding user_auth verify_oidc_token
user_auth_lem p now config f h c u d e =
    let token = get_bearer_token (h (lit "authorization")) in
    let verified = verify_oidc_token p now config f c token in
    let Passes : Cache × AuthReply → Type 0 =
      λ x. x.1 ≡ goes_on u → GoesOn p now config f c token u in
    if-holds Passes (config.is_dev) _
      (if is_empty token then (c, unauthorized) else reply_of verified) (λ b k. cc (b, d))
      (λ _.
        if-holds Passes (is_empty token) (c, unauthorized) (reply_of verified) (λ _ k. cc k)
          (λ _ k. replied p now config f c token u verified refl k))
      e
