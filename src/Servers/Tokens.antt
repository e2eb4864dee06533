-- ===== src/Servers/Tokens.antt =====
-- Which tokens a server is admitted with: src/pillar/store.js and src/beacon/store.js.
use ender.Prelude.{
  [], ◌∷◌, Bool, true, false, not, ◌&&◌, none, some, Text, is_empty, is_some, text_eq, text_eq_refl,
  text_or, Map, lookup, insert, lookup-insert, ◌≡◌, refl, arith,
}
use ender.Servers.{
  Server, Shown, shown, show, upsert, upserted, rotate, delete, authenticate, is_shown_to,
}

text_or-full : (a b : Text) → is_empty a ≡ false → text_or a b ≡ a
text_or-full [] b h = absurd (ground arith)
text_or-full (c ∷ a) b h = refl

module _ {ℓ} {D : Type ℓ} where
  -- The tokens that a live server accepts are those with its hash.
  abbrev pub accepts : (Text → Text) → Text → Text → Map (Server D) → Bool
  accepts hash id t m = is_some (authenticate hash id t m)

  accepts-insert :
      (hash : Text → Text) (id t : Text) (s : Server D) (m : Map (Server D))
      → accepts hash id t (insert id s m)
        ≡ (not (is_some s.deleted_at) && not (is_empty t) && text_eq (hash t) s.token_hash)
  unfolding authenticate
  accepts-insert hash id t s m = rw (lookup-insert id id s m, text_eq_refl id) (ground arith)

  accepts_lem :
      (hash : Text → Text) (id t : Text) (s : Server D) (m : Map (Server D))
      → lookup id m ≡ some s
      → is_some s.deleted_at ≡ false
      → (not (is_empty t) && text_eq (hash t) s.token_hash) ≡ accepts hash id t m
  unfolding authenticate
  accepts_lem hash id t s m h live = rw (h, live) (ground arith)

  owner_live :
      (user : Text) (s : Server D)
      → is_shown_to user s ≡ true
      → (text_eq s.user_id user ≡ true) × (is_some s.deleted_at ≡ false)
  owner_live user s o = ground arith

  -- Once its owner has rotated the token of a live server, it accepts exactly the texts with the hash of
  -- the token that was created; once it is deleted it accepts none.
  pub rotate-delete-accepts :
      (hash : Text → Text) (at user id token : Text) (s : Server D) (m : Map (Server D)) (t : Text)
      → lookup id m ≡ some s
      → is_shown_to user s ≡ true
      → (accepts hash id t (rotate hash at user id token m).0
          ≡ (not (is_empty t) && text_eq (hash t) (hash token)))
        × (accepts hash id t (delete at user id m).0 ≡ false)
  unfolding rotate delete
  rotate-delete-accepts hash at user id token s m t h o = (
    rw (
      h,
      o,
      accepts-insert hash id t (record s { token_hash = hash token; updated_at = at }) m,
      (owner_live user s o).1,
    ),
    rw (h, o, accepts-insert hash id t (record s { deleted_at = some at; updated_at = at }) m),
  )

  delete_lem :
      (at user id : Text) (s : Server D) (m : Map (Server D))
      → lookup id m ≡ some s
      → is_shown_to user s ≡ true
      → (delete at user id m).0 ≡ insert id (record s { deleted_at = some at; updated_at = at }) m
  unfolding delete
  delete_lem at user id s m h o = rw (h, o)

  upsert_lem :
      (hash : Text → Text) (at user id token : Text) (d : D) (s : Server D) (m : Map (Server D))
      → lookup id m ≡ some s
      → text_eq s.user_id user ≡ true
      → upsert hash at user id token d m ≡ (
        insert id (upserted hash at user id token d (some s)) m,
        shown (show (upserted hash at user id token d (some s))) none,
      )
  unfolding upsert
  upsert_lem hash at user id token d s m h o = rw (h, o)

  -- The owner of a deleted server who registers its id again gets no token, and the server accepts the
  -- texts that it accepted before the deletion.
  pub upsert-delete_revives :
      (hash : Text → Text) (at later user id token : Text) (d : D) (s : Server D)
      (m : Map (Server D)) (t : Text)
      → lookup id m ≡ some s
      → is_shown_to user s ≡ true
      → is_empty s.token_hash ≡ false
      → (accepts hash id t (upsert hash later user id token d (delete at user id m).0).0
          ≡ accepts hash id t m)
        × ((v : Shown D) × ((upsert hash later user id token d (delete at user id m).0).1
              ≡ shown v none))
  unfolding upserted
  upsert-delete_revives hash at later user id token d s m t h o full =
      let s' : Server D = record s { deleted_at = some at; updated_at = at } in
      let found : lookup id (insert id s' m) ≡ some s' =
        rw (lookup-insert id id s' m, text_eq_refl id) in
      let again =
        upsert_lem hash later user id token d s' (insert id s' m) found (owner_live user s o).0 in
      let back = upserted hash later user id token d (some s') in
      (
        rw
            (
              delete_lem at user id s m h o,
              again,
              accepts-insert hash id t back (insert id s' m),
              text_or-full s.token_hash (hash []) full,
            )
            (accepts_lem hash id t s m h (owner_live user s o).1),
        (show back, rw (delete_lem at user id s m h o, again)),
      )
