-- ===== src/Auth.antt =====
-- The users of beacon and pillar, src/beacon/auth.js: bearer tokens signed by an OpenID provider, its
-- keys, and the claims that are checked. What node's Buffer, JSON and crypto give is a parameter, as
-- are the comparisons that JavaScript makes of a claim with a time.
pub mod Accepts
pub mod Claims
pub mod Keys
pub mod Users
use Prim.Native.Nat.{◌%◌}
use ender.Prelude.{
  ℕ, zero, suc, ◌+◌, ◌-◌, Bool, true, false, not, ◌&&◌, ◌||◌, List, [], ◌∷◌, ◌++◌, map, Option,
  none, some, Text, lit, text_eq, text_or, non_empty, trim, lower, is_space, is_empty, includes,
  length, take, drop, ltb, ◌==◌, if◌then◌else◌,
}
use ender.Json.{Json, null, boolean, number, string, array, object, natural, negative, fraction}
use ender.Json.Read.{
  same_value, member, string_of, js_string, string_if, truthy, is_truthy, array_items, or_truthy,
}

-- What the platform does: `decode` is Buffer.from(text, "base64"), `parse` JSON.parse of bytes as UTF-8,
-- `verify` the signature check under a key, where `none` is a key that cannot be read; `at_most` and
-- `above` compare Number(value) with a time.
pub record Platform : Type 0 where
  pub decode : Text → List ℕ
  pub parse : List ℕ → Option Json
  pub verify : Json → Text → List ℕ → Option Bool
  pub at_most : Json → ℕ → Bool
  pub above : Json → ℕ → Bool

-- A value, or the message of the exception.
pub data Result (A : Type 0) : Type 0 where
  ok : A → Result A
  throws : Text → Result A

unfoldable pub plain_base64 : Text → Text
plain_base64 [] = []
plain_base64 (c ∷ s) = (if c == 45 then 43 else if c == 95 then 47 else c) ∷ plain_base64 s

abbrev pub equals_signs : ℕ → Text
equals_signs zero = []
equals_signs (suc n) = 61 ∷ equals_signs n

-- `base64UrlDecode`
unfoldable pub base64_url_decode : Platform → Text → List ℕ
unfolding plain_base64
base64_url_decode p s =
    let raw = plain_base64 s in p.decode (raw ++ equals_signs ((4 - length raw % 4) % 4))

abbrev add_unit : ℕ → List Text → List Text
add_unit c [] = (c ∷ []) ∷ []
add_unit c (s ∷ ss) = (c ∷ s) ∷ ss

-- `text.split(".")`
unfoldable pub split_dots : Text → List Text
split_dots [] = [] ∷ []
split_dots (c ∷ s) = let rest = split_dots s in if c == 46 then [] ∷ rest else add_unit c rest

pub record Jwt : Type 0 where
  pub header : Json
  pub payload : Json
  pub signature : List ℕ
  pub signing_input : Text

abbrev jwt_of : Text → Text → List ℕ → Option Json → Option Json → Result Jwt
jwt_of h b signature (some header) (some payload) = ok (record {
  header = header;
  payload = payload;
  signature = signature;
  signing_input = h ++ (lit "." ++ b);
})
jwt_of h b signature x y = throws (lit "invalid_json")

abbrev parts_of : Platform → List Text → Result Jwt
parts_of p (h ∷ b ∷ s ∷ []) =
    jwt_of h b (base64_url_decode p s) (p.parse (base64_url_decode p h))
      (p.parse (base64_url_decode p b))
parts_of p parts = throws (lit "invalid_token")

-- `parseJwt`
unfoldable pub parse_jwt : Platform → Text → Result Jwt
unfolding base64_url_decode split_dots
parse_jwt p token = parts_of p (split_dots token)

-- `JwksCache`
pub record Cache : Type 0 where
  pub jwks_uri : Option Text
  pub ttl_ms : ℕ
  pub cached_at : ℕ
  pub keys : List Json

-- What the fetch gives: an exception, a status that is not ok, or a body.
pub data Fetched : Type 0 where
  failed : Text → Fetched
  refused : Text → Fetched
  body : Json → Fetched

abbrev pub keys_in : Json → Result (List Json)
keys_in null = throws (lit "null_body")
keys_in j = ok (array_items (member (lit "keys") j))

abbrev pub stored : ℕ → Cache → Result (List Json) → Cache × Result (List Json)
stored now c (ok keys) = (record c { keys = keys; cached_at = now }, ok keys)
stored now c (throws e) = (c, throws e)

abbrev pub fetched : ℕ → Cache → Fetched → Cache × Result (List Json)
fetched now c (failed e) = (c, throws e)
fetched now c (refused status) = (c, throws (lit "jwks_fetch_failed_" ++ status))
fetched now c (body j) = stored now c (keys_in j)

abbrev pub is_some_key : List Json → Bool
is_some_key [] = false
is_some_key (k ∷ ks) = true

abbrev pub is_fresh : ℕ → Cache → Bool
is_fresh now c = is_some_key c.keys && ltb (now - c.cached_at) c.ttl_ms

abbrev pub get_from : ℕ → Fetched → Cache → Option Text → Cache × Result (List Json)
get_from now f c none = (c, throws (lit "jwks_uri_not_configured"))
get_from now f c (some uri) = if is_fresh now c then (c, ok c.keys) else fetched now c f

-- `getKeys`, with what a fetch would give; the time is in milliseconds.
unfoldable pub get_keys : ℕ → Fetched → Cache → Cache × Result (List Json)
get_keys now f c = get_from now f c c.jwks_uri

-- `getKey`; the keys are objects.
unfoldable pub find_key : Option Json → List Json → Option Json
unfolding same_value
find_key kid [] = none
find_key kid (k ∷ ks) =
    let later = find_key kid ks in if same_value (member (lit "kid") k) kid then some k else later

-- The claims of a token, `payload.k`; a payload that is no object has none.
abbrev pub claim : Text → Json → Option Json
claim k payload = member k payload

abbrev pub truthy_list : Option Json → List Json
truthy_list none = []
truthy_list (some j) = if truthy j then j ∷ [] else []

abbrev pub audiences : Option Json → List Json
audiences (some (array js)) = array_items (some (array js))
audiences aud = truthy_list aud

unfoldable pub holds_text : Text → List Json → Bool
unfolding same_value
holds_text s [] = false
holds_text s (j ∷ js) = same_value (some j) (some (string s)) || holds_text s js

abbrev pub compares : (Json → ℕ → Bool) → Option Json → ℕ → Bool
compares test none now = false
compares test (some j) now = truthy j && test j now

pub record Config : Type 0 where
  pub is_dev : Bool
  pub issuer : Option Text
  pub audience : Text

abbrev pub is_issuer : Option Text → Json → Bool
is_issuer none payload = true
is_issuer (some s) payload = same_value (claim (lit "iss") payload) (some (string s))

abbrev pub is_audience : Text → Json → Bool
is_audience [] payload = true
is_audience (c ∷ s) payload =
    holds_text (c ∷ s)
      (audiences (claim (lit "aud") payload) ++ truthy_list (claim (lit "azp") payload))

-- `validateClaims`, with the time in seconds.
unfoldable pub validate_claims : Platform → ℕ → Config → Json → Result Unit
unfolding holds_text
validate_claims p now config payload =
    if not (is_truthy (claim (lit "sub") payload))
    then throws (lit "token_subject_required")
    else if compares (p.at_most) (claim (lit "exp") payload) now
    then throws (lit "token_expired")
    else if compares (p.above) (claim (lit "nbf") payload) now
    then throws (lit "token_not_yet_valid")
    else if not (is_issuer config.issuer payload)
    then throws (lit "token_issuer_mismatch")
    else if not (is_audience config.audience payload)
    then throws (lit "token_audience_mismatch")
    else ok tt
