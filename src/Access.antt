-- ===== src/Access.antt =====
-- Who may call the HTTP API: src/api/access.js. `host_of` is the `hostname` of a URL, `none` where
-- `new URL` throws.
pub mod Names
use ender.Prelude.{
  Bool, true, false, ◌&&◌, ◌||◌, not, List, [], ◌∷◌, Option, none, some, Text, lit, is_empty,
  text_eq, text_of, trim, lower, includes, starts_with, if◌then◌else◌,
}

pub record ApiAccess : Type 0 where
  pub mode : Text
  pub cors_origins : List Text

-- `s.split("%")[0]`
abbrev pub before_percent : Text → Text
before_percent [] = []
before_percent (c ∷ s) = if text_eq (c ∷ []) (lit "%") then [] else c ∷ before_percent s

abbrev pub names_loopback : Text → Bool
names_loopback address =
    text_eq address (lit "::1")
    || text_eq address (lit "localhost")
    || starts_with (lit "127.") address
    || starts_with (lit "::ffff:127.") address

-- isLoopbackAddress
unfoldable pub is_loopback_address : Text → Bool
is_loopback_address value = names_loopback (before_percent (lower (trim value)))

abbrev pub is_loopback_host : Option Text → Bool
is_loopback_host none = false
is_loopback_host (some h) = is_loopback_address h

-- isLoopbackOrigin
unfoldable pub is_loopback_origin : (Text → Option Text) → Text → Bool
unfolding is_loopback_address
is_loopback_origin host_of value = text_eq value (lit "null") || is_loopback_host (host_of value)

abbrev pub has_none : List Text → Bool
has_none [] = true
has_none (_ ∷ _) = false

abbrev pub permits_given : (Text → Option Text) → ApiAccess → Text → Bool
permits_given host_of a [] = true
permits_given host_of a (c ∷ s) =
    includes a.cors_origins (c ∷ s)
    || (text_eq a.mode (lit "open") && has_none a.cors_origins)
    || (text_eq a.mode (lit "local") && is_loopback_origin host_of (c ∷ s))

-- The `origin` callback of createCorsOptions, with what it answers; `none` is an absent header.
unfoldable pub permits_origin : (Text → Option Text) → ApiAccess → Option Text → Bool
unfolding is_loopback_origin
permits_origin host_of a origin = permits_given host_of a (text_of origin)

-- isApiAccessAllowed
unfoldable pub is_access_allowed : ApiAccess → Option Text → Bool
unfolding is_loopback_address
is_access_allowed a address = text_eq a.mode (lit "open") || is_loopback_address (text_of address)

pub data Answer : Type 0 where
  goes_on : Answer
  forbidden : Text → Answer  -- status 403

-- The middleware of createApiAccessMiddleware, on the address of the request's socket.
unfoldable pub answer_of : ApiAccess → Option Text → Answer
unfolding is_access_allowed
answer_of a address =
    if is_access_allowed a address then goes_on else forbidden (lit "remote_access_disabled")
