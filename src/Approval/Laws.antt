-- ===== src/Approval/Laws.antt =====
-- What the coordinator of src/runtime/taskApprovalCoordinator.js promises its callers.
use ender.Prelude.{
  suc, ◌<◌, Bool, true, false, List, [], ◌∷◌, Option, none, some, Text, Map, lookup, insert, remove,
  has, length, is_empty, text_of, text_or, fresh_key, fresh_key_total, fresh_key_unused,
  AreDistinct, lookup-insert, lookup-remove, text_eq_refl, ◌≡◌, refl, arith, Option-cases, inl, inr,
}
use ender.Approval.{
  Approval, Payload, Store, Resolution, normalize, count, request, settle, resolve,
}

length-insert_new {ℓ} :
    {V : Type ℓ} (k : Text) (v : V) (m : Map V)
    → has k m ≡ false
    → length (insert k v m) ≡ suc (length m)
unfolding insert has
length-insert_new k v [] h = refl
length-insert_new k v ((j, w) ∷ m) h = ground (arith, length-insert_new k v m)

remove-insert_new {ℓ} :
    {V : Type ℓ} (k : Text) (v : V) (m : Map V) → has k m ≡ false → remove k (insert k v m) ≡ m
unfolding insert has remove
remove-insert_new k v [] h = ground (arith, text_eq_refl k)
remove-insert_new k v ((j, w) ∷ m) h = ground (arith, remove-insert_new k v m)

text_or_same : (c d : Text) → is_empty c ≡ false → text_or c d ≡ c
text_or_same [] d e = cc
text_or_same (x ∷ c) d e = refl

-- The id that `request` gives an approval is the one under which the store holds it.
pub id-request :
    (ids : List Text) (now : Text) (s : Store) (p : Payload) {t : Store} {a : Approval}
    → request ids now s p ≡ some (t, a)
    → (has a.id s ≡ false)
      × (is_empty a.id ≡ false)
      × (t ≡ insert a.id (record { approval = a; live = true }) s)
unfolding request normalize
id-request ids now s p {t} {a} h = elim (Option-cases (fresh_key ids s)) [
  | inl e ↦
      let bad : ◌≡◌ {A = Option (Store × Approval)} none (some (t, a)) = rw (e, request) at h in cc
  | inr (c, e) ↦
      let (u, n) = fresh_key_unused s ids e in
      ground (arith, e, u, n, text_or_same c (text_of p.id))
]

-- request always succeeds when the generator gives more distinct ids than approvals are pending,
-- and it adds exactly one approval.
pub request_total :
    (ids : List Text) (now : Text) (s : Store) (p : Payload)
    → AreDistinct ids
    → length s < length ids
    → (t : Store) × (a : Approval) × (request ids now s p ≡ some (t, a)) × (count t ≡ suc (count s))
unfolding request count
request_total ids now s p d h =
    let (c, e) = fresh_key_total s ids d h in
    (
      insert c (record { approval = normalize p (some c) now; live = true }) s,
      normalize p (some c) now,
      rw (e, request),
      length-insert_new c _ s (fresh_key_unused s ids e).0,
    )

-- Resolving the approval that was just requested settles its promise with the answer, once, and
-- leaves the store as it was before the request.
pub resolve-request :
    (ids : List Text) (now : Text) (s : Store) (p : Payload) (approved : Bool) {t : Store}
    {a : Approval}
    → request ids now s p ≡ some (t, a)
    → resolve t a.id approved
      ≡ some (record {
        approval = a;
        remaining = count s;
        store = s;
        decisions = record { id = a.id; approved = approved } ∷ [];
      })
unfolding resolve count settle
resolve-request ids now s p approved {t} {a} h =
    let (u, n, e) = id-request ids now s p h in
    rw (e, resolve, lookup-insert, text_eq_refl a.id) (rw (remove-insert_new a.id _ s u))

-- A second answer to the same approval is refused, whatever the first was.
pub resolve_twice :
    (s : Store) (id : Text) (first second : Bool) {r : Resolution}
    → resolve s id first ≡ some r
    → resolve r.store id second ≡ none
unfolding resolve
resolve_twice s id first second {r} h = elim (Option-cases (lookup id s)) [
  | inl e ↦ let bad : none ≡ some r = rw (e, resolve) at h in cc
  | inr (p, e) ↦
      let gone : lookup id (remove id s) ≡ none = rw (lookup-remove, text_eq_refl id) in
      let left : r.store ≡ remove id s = ground (arith, e) in rw left (rw (gone, resolve))
]
