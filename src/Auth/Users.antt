-- ===== src/Auth/Users.antt =====
-- `verifyOidcToken` and `createUserAuth` of src/beacon/auth.js.
use Prim.Native.Nat.{◌/◌}
use ender.Prelude.{
  ℕ, Bool, true, false, ◌&&◌, List, [], ◌∷◌, Option, none, some, Text, lit, text_eq, text_or,
  text_of, non_empty, trim, lower, is_space, is_empty, take, drop, if◌then◌else◌,
}
use ender.Json.{Json, string, object, field, end}
use ender.Json.Read.{same_value, member, js_string, string_if, or_truthy}
use ender.Auth.{
  Platform, Result, ok, throws, Jwt, Cache, Fetched, Config, parse_jwt, get_keys, find_key, claim,
  validate_claims,
}

-- Is the header's `alg` "RS256"?
abbrev pub is_rs256 : Jwt → Bool
is_rs256 t = same_value (member (lit "alg") t.header) (some (string (lit "RS256")))

abbrev pub claims_of : Jwt → Result Unit → Result Json
claims_of t (ok u) = ok t.payload
claims_of t (throws e) = throws e

abbrev pub after_verify : Platform → ℕ → Config → Jwt → Option Bool → Result Json
after_verify p now config t none = throws (lit "invalid_key")
after_verify p now config t (some false) = throws (lit "token_signature_invalid")
after_verify p now config t (some true) =
    claims_of t (validate_claims p (now / 1000) config t.payload)

abbrev pub with_key : Platform → ℕ → Config → Jwt → Option Json → Result Json
with_key p now config t none = throws (lit "token_key_not_found")
with_key p now config t (some key) =
    after_verify p now config t (p.verify key t.signing_input t.signature)

abbrev pub with_keys :
    Platform → ℕ → Config → Jwt → Cache × Result (List Json) → Cache × Result Json
with_keys p now config t (c, throws e) = (c, throws e)
with_keys p now config t (c, ok keys) =
    (c, with_key p now config t (find_key (member (lit "kid") t.header) keys))

abbrev pub verify_parsed :
    Platform → ℕ → Config → Fetched → Cache → Result Jwt → Cache × Result Json
verify_parsed p now config f c (throws e) = (c, throws e)
verify_parsed p now config f c (ok t) =
    if is_rs256 t
    then with_keys p now config t (get_keys now f c)
    else (c, throws (lit "unsupported_token_alg"))

-- `verifyOidcToken`; the time is in milliseconds.
unfoldable pub verify_oidc_token :
    Platform → ℕ → Config → Fetched → Cache → Text → Cache × Result Json
unfolding parse_jwt get_keys find_key validate_claims
verify_oidc_token p now config f c token = verify_parsed p now config f c (parse_jwt p token)

abbrev starts_space : Text → Bool
starts_space [] = false
starts_space (c ∷ s) = is_space c

-- `getBearerToken`; a header has no line ends.
unfoldable pub get_bearer_token : Option Text → Text
get_bearer_token header =
    let raw = trim (text_of header) in
    if text_eq (lower (take 6 raw)) (lit "bearer") && starts_space (drop 6 raw)
    then trim (drop 6 raw)
    else []

pub record User : Type 0 where
  pub id : Text
  pub email : Option Text
  pub name : Option Json
  pub claims : Json

-- The request goes on with a user, or is answered by a 401.
pub data AuthReply : Type 0 where
  goes_on : User → AuthReply
  unauthorized : AuthReply
  invalid_token : Text → AuthReply

-- The headers of a request, by their names in lower case.
abbrev pub Headers : Type 0
Headers = Text → Option Text

abbrev two_headers : Headers → Text → Text → Text
two_headers h a b = trim (text_or (text_of (h a)) (text_of (h b)))

abbrev dev_user : Headers → AuthReply
dev_user h =
    let id = two_headers h (lit "x-beacon-user-id") (lit "x-pillar-user-id") in
    if is_empty id
    then unauthorized
    else goes_on (record {
      id = id;
      email = non_empty (two_headers h (lit "x-beacon-user-email") (lit "x-pillar-user-email"));
      name =
          named (non_empty (two_headers h (lit "x-beacon-user-name") (lit "x-pillar-user-name")));
      claims = object (field (lit "sub") (string id) end);
    })
  where
    named : Option Text → Option Json
    named none = none
    named (some s) = some (string s)

abbrev pub user_of : Json → User
user_of claims = record {
  id = js_string (sub_of (claim (lit "sub") claims));
  email = string_if (claim (lit "email") claims);
  name = or_truthy (claim (lit "name") claims) (
      or_truthy (claim (lit "preferred_username") claims)
        (or_truthy (claim (lit "email") claims) (claim (lit "sub") claims)));
  claims = claims;
}
  where
    sub_of : Option Json → Json
    sub_of none = string []
    sub_of (some j) = j

abbrev pub reply_of : Cache × Result Json → Cache × AuthReply
reply_of (c, ok claims) = (c, goes_on (user_of claims))
reply_of (c, throws e) = (c, invalid_token e)

-- The handler that `createUserAuth` makes.
unfoldable pub user_auth : Platform → ℕ → Config → Fetched → Headers → Cache → Cache × AuthReply
unfolding verify_oidc_token get_bearer_token
user_auth p now config f h c =
    let token = get_bearer_token (h (lit "authorization")) in
    if config.is_dev
    then (c, dev_user h)
    else if is_empty token
    then (c, unauthorized)
    else reply_of (verify_oidc_token p now config f c token)
