-- ===== src/Tests/Users.antt =====
-- Tests of the users of beacon and pillar.
use ender.Prelude.{
  false, [], ◌∷◌, none, some, lit, text_eq, lower, trim, is_space, if◌then◌else◌, ◌≡◌, refl,
}
use ender.Json.{Json, string, number, object, array, nil, cons, field, end, natural}
use ender.Json.Read.{array_items, is_truthy}
use ender.Auth.{Platform, Config, Cache, Fetched, body, get_keys, ok, failed}
use ender.Auth.Users.{Headers, user_auth, goes_on, user_of, get_bearer_token}
use ender.Auth.Accepts.{user_auth_lem, IsLetIn}
use ender.Auth.Keys.{get_all, get_keys-AreRecent, AreRecent}

abbrev jose_header : Json
jose_header =
    object (field (lit "alg") (string (lit "RS256")) (field (lit "kid") (string (lit "k1")) end))

abbrev ann_claims : Json
ann_claims = object (
    field (lit "sub") (string (lit "ann"))
      (field (lit "exp") (number (natural 900)) (field (lit "aud") (string (lit "ender")) end)))

abbrev jwk : Json
jwk = object (field (lit "kid") (string (lit "k1")) end)

abbrev platform : Platform
platform = record {
  decode = λ s. s;
  parse = λ s. if text_eq s (lit "head") then some jose_header else some ann_claims;
  verify = λ k s signature. some (text_eq signature (lit "good"));
  at_most = λ j n. false;
  above = λ j n. false;
}

abbrev configured : Config
configured = record { is_dev = false; issuer = none; audience = lit "ender" }

abbrev new_cache : Cache
new_cache = record { jwks_uri = some (lit "https://keys"); ttl_ms = 300; cached_at = 0; keys = [] }

abbrev jwks_answer : Fetched
jwks_answer = body (object (field (lit "keys") (array (cons jwk nil)) end))

abbrev headers : Headers
headers name =
    if text_eq name (lit "authorization") then some (lit "Bearer head.load.good") else none

is_ann :
    (user_auth platform 1000 configured jwks_answer headers new_cache).1
    ≡ goes_on (user_of ann_claims)
unfolding user_auth lit text_eq lower trim is_space array_items is_truthy
is_ann = refl

user_auth_lem_example :
    (c : Json) × IsLetIn platform 1000 configured jwks_answer new_cache
      (get_bearer_token (headers (lit "authorization")))
      c
    × (user_of ann_claims ≡ user_of c)
user_auth_lem_example =
    user_auth_lem platform 1000 configured jwks_answer headers new_cache (user_of ann_claims) refl
      is_ann

keys_kept :
    (get_keys 1200 (failed (lit "down")) (get_all ((1000, jwks_answer) ∷ []) new_cache)).1
    ≡ ok (jwk ∷ [])
unfolding get_all get_keys lit text_eq array_items
keys_kept = refl

get_keys-AreRecent_example :
    AreRecent 1200 (failed (lit "down")) 300 ((1000, jwks_answer) ∷ []) (jwk ∷ [])
get_keys-AreRecent_example =
    get_keys-AreRecent ((1000, jwks_answer) ∷ []) 1200 (failed (lit "down")) new_cache (jwk ∷ [])
      refl keys_kept
