-- ===== src/Servers/Owners.antt =====
-- No user can touch the servers of another: src/pillar/store.js and src/beacon/store.js.
use ender.Prelude.{
  Bool, true, false, List, [], ◌∷◌, Option, none, some, Text, text_eq, text_eq_iff, Map, lookup,
  insert, lookup-insert, All, Bool-cases, inl, inr, if◌then◌else◌, ◌≡◌, refl, ap, ◌∙◌, arith,
}
use ender.Servers.{Server, upsert, rotate, delete, changed, find_owned, is_of_other}

-- The calls that change the store, each with the user who makes it.
pub data Call {ℓ} (D : Type ℓ) : Type ℓ where
  upserts : Text → Text → Text → Text → D → Call D
  rotates : Text → Text → Text → Text → Call D
  deletes : Text → Text → Text → Call D

module _ {ℓ} {D : Type ℓ} where
  abbrev pub caller : Call D → Text
  caller (upserts user at id token d) = user
  caller (rotates user at id token) = user
  caller (deletes user at id) = user

  -- The servers after a call, and after many.
  abbrev pub after : (Text → Text) → Call D → Map (Server D) → Map (Server D)
  after hash (upserts user at id token d) m = (upsert hash at user id token d m).0
  after hash (rotates user at id token) m = (rotate hash at user id token m).0
  after hash (deletes user at id) m = (delete at user id m).0

  abbrev pub after_all : (Text → Text) → List (Call D) → Map (Server D) → Map (Server D)
  after_all hash [] m = m
  after_all hash (c ∷ cs) m = after_all hash cs (after hash c m)

  if-kept :
      {R : Type ℓ} (k : Text) (s : Server D) (b : Bool) (x y : Map (Server D) × R)
      → (b ≡ true → lookup k x.0 ≡ some s)
      → (b ≡ false → lookup k y.0 ≡ some s)
      → lookup k (if b then x else y).0 ≡ some s
  if-kept k s true x y p q = p refl
  if-kept k s false x y p q = q refl

  insert-kept :
      (k id : Text) (s v : Server D) (m : Map (Server D))
      → text_eq id k ≡ false
      → lookup k m ≡ some s
      → lookup k (insert id v m) ≡ some s
  insert-kept k id s v m ne h = rw (lookup-insert id k v m, ne) h

  at_own_id :
      (k id : Text) (s : Server D) (m : Map (Server D))
      → text_eq id k ≡ true
      → lookup k m ≡ some s
      → lookup id m ≡ some s
  at_own_id k id s m e h = ap (λ i. lookup i m) ((text_eq_iff id k).0 e) ∙ h

  upsert-kept :
      (hash : Text → Text) (at user id token : Text) (d : D) (k : Text) (s : Server D)
      (m : Map (Server D))
      → text_eq s.user_id user ≡ false
      → lookup k m ≡ some s
      → lookup k (upsert hash at user id token d m).0 ≡ some s
  unfolding upsert
  upsert-kept hash at user id token d k s m other h =
      if-kept k s (is_of_other user (lookup id m)) _ _ (λ _. h)
        (λ own. elim (Bool-cases (text_eq id k)) [
          | inr ne ↦ insert-kept k id s _ m ne h
          | inl e ↦ absurd (foreign e own)
        ])
    where
      foreign : text_eq id k ≡ true → is_of_other user (lookup id m) ≡ false → ⊥
      foreign e own = ground (arith, at_own_id k id s m e h)

  changed-kept :
      (k id : Text) (s : Server D) (m : Map (Server D)) (o : Option (Server D))
      (f : Server D → Server D) (token : Option Text)
      → text_eq id k ≡ false
      → lookup k m ≡ some s
      → lookup k (changed id o f token m).0 ≡ some s
  changed-kept k id s m none f token ne h = h
  changed-kept k id s m (some v) f token ne h = insert-kept k id s (f v) m ne h

  find_owned-none :
      (user k id : Text) (s : Server D) (m : Map (Server D))
      → text_eq s.user_id user ≡ false
      → text_eq id k ≡ true
      → lookup k m ≡ some s
      → find_owned user id m ≡ none
  unfolding find_owned
  find_owned-none user k id s m other e h = rw (at_own_id k id s m e h, other)

  owned-kept :
      (user k id : Text) (s : Server D) (m : Map (Server D)) (f : Server D → Server D)
      (token : Option Text)
      → text_eq s.user_id user ≡ false
      → lookup k m ≡ some s
      → lookup k (changed id (find_owned user id m) f token m).0 ≡ some s
  owned-kept user k id s m f token other h = elim (Bool-cases (text_eq id k)) [
    | inr ne ↦ changed-kept k id s m (find_owned user id m) f token ne h
    | inl e ↦ rw (find_owned-none user k id s m other e h) h
  ]

  after-kept :
      (hash : Text → Text) (c : Call D) (k : Text) (s : Server D) (m : Map (Server D))
      → text_eq s.user_id (caller c) ≡ false
      → lookup k m ≡ some s
      → lookup k (after hash c m) ≡ some s
  unfolding rotate delete
  after-kept hash (upserts user at id token d) k s m other h =
      upsert-kept hash at user id token d k s m other h
  after-kept hash (rotates user at id token) k s m other h =
      owned-kept user k id s m (λ s. record s { token_hash = hash token; updated_at = at })
        (some token) other h
  after-kept hash (deletes user at id) k s m other h =
      owned-kept user k id s m (λ s. record s { deleted_at = some at; updated_at = at }) none other
        h

  -- However many calls other users make, with whatever ids, a server stays in the store just as it was.
  pub other_users_change_nothing :
      (hash : Text → Text) (cs : List (Call D)) (k : Text) (s : Server D) (m : Map (Server D))
      → All (λ (c : Call D). text_eq s.user_id (caller c) ≡ false) cs
      → lookup k m ≡ some s
      → lookup k (after_all hash cs m) ≡ some s
  other_users_change_nothing hash [] k s m others h = h
  other_users_change_nothing hash (c ∷ cs) k s m others h =
      other_users_change_nothing hash cs k s (after hash c m) others.1
        (after-kept hash c k s m others.0 h)
