-- ===== src/Servers.antt =====
-- The servers that a user registers, as the stores of the Pillar relay (src/pillar/store.js) and of the
-- Beacon service (src/beacon/store.js) keep them. `hash` is SHA-256 in hexadecimal; a token that is
-- created is an argument. Ids are not names that every JavaScript object has.
pub mod Owners
pub mod Tokens
use ender.Prelude.{
  lit, Bool, true, false, not, ◌&&◌, ◌||◌, List, Option, none, some, Text, is_empty, text_eq,
  text_or, text_of, is_some, Map, lookup, insert, values, keep, map, if◌then◌else◌,
}

-- `D` holds the fields that normalizeServer gives.
pub record Server {ℓ} (D : Type ℓ) : Type ℓ where
  pub id : Text
  pub user_id : Text
  pub created_at : Text
  pub updated_at : Text
  pub deleted_at : Option Text
  pub token_hash : Text
  pub details : D

-- A server as it is shown, without the hash of its token.
pub record Shown {ℓ} (D : Type ℓ) : Type ℓ where
  pub id : Text
  pub user_id : Text
  pub created_at : Text
  pub updated_at : Text
  pub deleted_at : Option Text
  pub details : D

abbrev pub show {ℓ} : {D : Type ℓ} → Server D → Shown D
show s = record {
  id = s.id;
  user_id = s.user_id;
  created_at = s.created_at;
  updated_at = s.updated_at;
  deleted_at = s.deleted_at;
  details = s.details;
}

-- The answer of a call: the server with the token that was created, or the `error`.
pub data ServerReply {ℓ} (D : Type ℓ) : Type ℓ where
  shown : Shown D → Option Text → ServerReply D
  refused : Text → ServerReply D

module _ {ℓ} {D : Type ℓ} where
  -- `server.userId === userId && !server.deletedAt`
  abbrev pub is_shown_to : Text → Server D → Bool
  is_shown_to user s = text_eq s.user_id user && not (is_some s.deleted_at)

  -- `listServers`; `sort` puts the latest update first.
  unfoldable pub list_servers :
      (List (Server D) → List (Server D)) → Text → Map (Server D) → List (Shown D)
  list_servers sort user m = map show (sort (keep (is_shown_to user) (values m)))

  abbrev pub owned_or_none : Text → Option (Server D) → Option (Server D)
  owned_or_none user none = none
  owned_or_none user (some s) = if is_shown_to user s then some s else none

  -- The server that a call by this user may change.
  unfoldable pub find_owned : Text → Text → Map (Server D) → Option (Server D)
  find_owned user id m = owned_or_none user (lookup id m)

  abbrev pub is_of_other : Text → Option (Server D) → Bool
  is_of_other user none = false
  is_of_other user (some s) = not (text_eq s.user_id user)

  abbrev pub created_before : Option (Server D) → Text → Text
  created_before none at = at
  created_before (some s) at = text_or s.created_at at

  abbrev pub hash_before : Option (Server D) → Text → Text
  hash_before none h = h
  hash_before (some s) h = text_or s.token_hash h

  -- A token is created for a new server only.
  abbrev pub token_for : Option (Server D) → Text → Option Text
  token_for none token = some token
  token_for (some s) token = none

  unfoldable pub upserted :
      (Text → Text) → Text → Text → Text → Text → D → Option (Server D) → Server D
  upserted hash at user id token details existing = record {
    id = id;
    user_id = user;
    created_at = created_before existing at;
    updated_at = at;
    deleted_at = none;
    token_hash = hash_before existing (hash (text_of (token_for existing token)));
    details = details;
  }

  -- `upsertServer`, with an id.
  unfoldable pub upsert :
      (Text → Text)
      → Text
      → Text
      → Text
      → Text
      → D
      → Map (Server D)
      → Map (Server D) × ServerReply D
  unfolding upserted
  upsert hash at user id token details m =
      let s = upserted hash at user id token details (lookup id m) in
      if is_of_other user (lookup id m)
      then (m, refused (lit "server_id_in_use"))
      else (insert id s m, shown (show s) (token_for (lookup id m) token))

  abbrev pub changed :
      Text
      → Option (Server D)
      → (Server D → Server D)
      → Option Text
      → Map (Server D)
      → Map (Server D) × ServerReply D
  changed id none f token m = (m, refused (lit "not_found"))
  changed id (some s) f token m = (insert id (f s) m, shown (show (f s)) token)

  -- `rotateServerToken`
  unfoldable pub rotate :
      (Text → Text) → Text → Text → Text → Text → Map (Server D) → Map (Server D) × ServerReply D
  unfolding find_owned
  rotate hash at user id token m =
      changed id (find_owned user id m) (λ s. record s { token_hash = hash token; updated_at = at })
        (some token) m

  -- `deleteServer`
  unfoldable pub delete : Text → Text → Text → Map (Server D) → Map (Server D) × ServerReply D
  unfolding find_owned
  delete at user id m =
      changed id (find_owned user id m) (λ s. record s { deleted_at = some at; updated_at = at })
        none m

  abbrev pub admitted : (Text → Text) → Text → Option (Server D) → Option (Server D)
  admitted hash token none = none
  admitted hash token (some s) =
      if is_some s.deleted_at || is_empty token || not (text_eq (hash token) s.token_hash)
      then none
      else some s

  -- `authenticateServer`
  unfoldable pub authenticate : (Text → Text) → Text → Text → Map (Server D) → Option (Server D)
  authenticate hash id token m = admitted hash token (lookup id m)
