-- ===== src/Relay.antt =====
-- The requests that the relay of src/pillar/server.js passes on, as they come from a client and go
-- to a server, and the responses. Base64 is a parameter.
pub mod Carried
pub mod Queue
pub mod Balance
pub mod Order
pub mod Waiting
pub mod Servers
pub mod Stream
use ender.Prelude.{
  ℕ, ◌+◌, Bool, true, false, not, ◌||◌, List, [], ◌∷◌, ◌++◌, map, Option, none, some, Text, lit,
  text_eq, is_empty, includes, lower, join, trim, length, take, drop, keep, or_else, ltb, ◌==◌, Map,
  insert, lookup, remove, has, values, if◌then◌else◌,
}

-- A header's value, or the list of its values.
pub data HeaderValue : Type 0 where
  one : Text → HeaderValue
  many : List Text → HeaderValue

abbrev pub hop_by_hop : List Text
hop_by_hop =
    lit "connection"
    ∷ lit "keep-alive"
    ∷ lit "proxy-authenticate"
    ∷ lit "proxy-authorization"
    ∷ lit "te"
    ∷ lit "trailer"
    ∷ lit "transfer-encoding"
    ∷ lit "upgrade"
    ∷ lit "content-length"
    ∷ []

abbrev pub header_text : HeaderValue → Text
header_text (one s) = s
header_text (many ss) = join (lit ", ") ss

abbrev pub is_dropped : Text → Bool
is_dropped name = includes hop_by_hop name || text_eq name (lit "host")

abbrev pub add_header : Text → HeaderValue → Map Text → Map Text
add_header name v next = if is_dropped name then next else insert name (header_text v) next

-- `sanitizeHeaders`
unfoldable pub sanitize_onto : Map Text → List (Text × HeaderValue) → Map Text
sanitize_onto next [] = next
sanitize_onto next ((key, v) ∷ rest) = sanitize_onto (add_header (lower key) v next) rest

abbrev pub sanitize_headers : List (Text × HeaderValue) → Map Text
sanitize_headers headers = sanitize_onto [] headers

pub record Base64 : Type 0 where
  pub encode : List ℕ → Text
  pub decode : Text → List ℕ

-- `bufferToBase64` and `base64ToBuffer`
abbrev pub buffer_to_base64 : Base64 → List ℕ → Text
buffer_to_base64 b [] = []
buffer_to_base64 b (x ∷ xs) = b.encode (x ∷ xs)

abbrev pub base64_to_buffer : Base64 → Option Text → List ℕ
base64_to_buffer b none = []
base64_to_buffer b (some []) = []
base64_to_buffer b (some (c ∷ s)) = b.decode (c ∷ s)

pub record Input : Type 0 where
  pub method : Text
  pub path : Text
  pub headers : List (Text × HeaderValue)
  pub body : List ℕ

-- `PendingRequest`
pub record Request : Type 0 where
  pub id : Text
  pub created_at : Text
  pub method : Text
  pub path : Text
  pub headers : Map Text
  pub body_base64 : Text
  pub delivered_at : Option Text

pub record Wire : Type 0 where
  pub id : Text
  pub method : Text
  pub path : Text
  pub headers : Map Text
  pub body_base64 : Text

unfoldable pub new_request : Base64 → Text → Text → Input → Request
unfolding sanitize_onto
new_request b now id input = record {
  id = id;
  created_at = now;
  method = input.method;
  path = input.path;
  headers = sanitize_headers input.headers;
  body_base64 = buffer_to_base64 b input.body;
  delivered_at = none;
}

abbrev pub to_wire : Request → Wire
to_wire r = record {
  id = r.id;
  method = r.method;
  path = r.path;
  headers = r.headers;
  body_base64 = r.body_base64;
}

-- What a server answers, and what the client gets.
pub record Response : Type 0 where
  pub status : Option ℕ
  pub headers : List (Text × HeaderValue)
  pub body_base64 : Option Text

pub record Answer : Type 0 where
  pub status : ℕ
  pub headers : Map Text
  pub body : List ℕ

abbrev status_or_502 : Option ℕ → ℕ
status_or_502 none = 502
status_or_502 (some n) = if n == 0 then 502 else n

abbrev pub answer_of : Base64 → Response → Answer
answer_of b r = record {
  status = status_or_502 r.status;
  headers = sanitize_headers r.headers;
  body = base64_to_buffer b r.body_base64;
}
