-- ===== src/Ledger/Guards.antt =====
-- What the guards of the public calls rule out: an entry that runs is neither taken from its task nor
-- deleted, and a new entry takes no place of another. src/runtime/taskLedgerManager.js.
use mathlib.Core.Path.{sym, ap, subst, ◌∙◌}
use mathlib.Core.Option.{some-injective}
use ender.Prelude.{
  ℕ, Bool, true, false, not, ◌&&◌, ◌<◌, List, Option, none, some, Text, lit, lower, text_eq,
  text_eq_iff, is_empty, Map, lookup, remove, length, lookup-remove, lookup_of_not_has, fresh_key,
  fresh_key_total, fresh_key_unused, AreDistinct, if◌then◌else◌, ◌≡◌, refl, arith, Bool-cases, inl,
  inr,
}
use ender.Json.{Json}
use ender.Json.Read.{member}
use ender.Ledger.Normalize.{trimmed}
use ender.Ledger.Validate.{
  Checked, valid, invalid, ◌>>=◌, Changes, NewEntry, validate_create, validate_update,
  status_change, known_status, required,
}
use ender.Ledger.Entry.{Entry, EntryStatus, is_running, editable_of}
use ender.Ledger.Stages.{saved_entry, refused}
use ender.Ledger.Manager.{
  TaskService, update_entry, change_status, apply_status, edit_fields, leaves_running, reset_entry,
  same_status,
}
use ender.Ledger.Calls.{create, create_with, delete, delete_known, DeleteReply, removed, kept}
use ender.Ledger.History.{entry_after}

abbrev pub asks_running : Option EntryStatus → Bool
asks_running none = false
asks_running (some s) = is_running s

editable-not_running : (s : Text) → asks_running (editable_of s) ≡ false
unfolding editable_of
editable-not_running s = ground arith

abbrev status_asked : Checked (Option EntryStatus) → Option EntryStatus
status_asked (valid s) = s
status_asked (invalid e) = none

abbrev asked : Checked Changes → Option EntryStatus
asked (valid c) = c.status
asked (invalid e) = none

known-not_running :
    (s : Option EntryStatus)
    → asks_running s ≡ false
    → asks_running (status_asked (known_status s)) ≡ false
known-not_running none h = refl
known-not_running (some s) h = h

status_change-not_running :
    (v : Option Json) → asks_running (status_asked (status_change v)) ≡ false
unfolding status_change
status_change-not_running none = refl
status_change-not_running (some j) =
    known-not_running (editable_of (lower (trimmed (some j))))
      (editable-not_running (lower (trimmed (some j))))

after_status :
    (m : Checked (Option EntryStatus)) (k : Option EntryStatus → Checked Changes)
    → asks_running (status_asked m) ≡ false
    → ((s : Option EntryStatus) → asks_running s ≡ false → asks_running (asked (k s)) ≡ false)
    → asks_running (asked (m >>= k)) ≡ false
after_status (valid s) k h p = p s h
after_status (invalid e) k h p = refl

after_field :
    {A : Type 0} (m : Checked A) (k : A → Checked Changes)
    → ((a : A) → asks_running (asked (k a)) ≡ false)
    → asks_running (asked (m >>= k)) ≡ false
after_field (valid a) k p = p a
after_field (invalid e) k p = refl

validate_update-not_running : (input : Json) → asks_running (asked (validate_update input)) ≡ false
unfolding validate_update
validate_update-not_running input =
    after_field (required (lit "title_required") (member (lit "title") input)) _ (λ t.
      after_field (required (lit "prompt_required") (member (lit "prompt") input)) _ (λ p.
        after_status (status_change (member (lit "status") input)) _
          (status_change-not_running (member (lit "status") input)) (λ s h. h)))

change_status-running :
    (now : Text) (s : EntryStatus) (e : Entry)
    → is_running (change_status now s e).status ≡ is_running s
unfolding change_status reset_entry
change_status-running now EntryStatus.pending e = refl
change_status-running now EntryStatus.running e = refl
change_status-running now EntryStatus.completed e = refl
change_status-running now EntryStatus.failed e = refl
change_status-running now EntryStatus.canceled e = refl
change_status-running now EntryStatus.blocked e = refl
change_status-running now EntryStatus.needs_input e = refl
change_status-running now (EntryStatus.other t) e = refl

if-running :
    (b c : Bool) (x y : Entry)
    → (b ≡ true → is_running x.status ≡ c)
    → (b ≡ false → is_running y.status ≡ c)
    → is_running (if b then x else y).status ≡ c
if-running true c x y p q = p refl
if-running false c x y p q = q refl

apply_status-running :
    (now : Text) (s : Option EntryStatus) (e : Entry)
    → asks_running s ≡ false
    → (is_running e.status && leaves_running s) ≡ false
    → is_running (apply_status now s e).status ≡ is_running e.status
apply_status-running now none e h p = refl
apply_status-running now (some s) e h p =
    if-running (same_status s e.status) (is_running e.status) e (change_status now s e) (λ _. refl)
      (λ _. ground (arith, change_status-running now s e))

if-reply_running :
    (b : Bool) (r : Text) (e d : Entry)
    → (b ≡ false → is_running d.status ≡ is_running e.status)
    → is_running (entry_after e (if b then refused r else saved_entry d)).status
      ≡ is_running e.status
if-reply_running true r e d p = refl
if-reply_running false r e d p = p refl

update-running :
    (now : Text) (c : Changes) (e : Entry)
    → asks_running c.status ≡ false
    → is_running (entry_after e (update_entry now c e)).status ≡ is_running e.status
unfolding update_entry edit_fields
update-running now c e h =
    if-reply_running (is_running e.status && leaves_running c.status) (lit "entry_running") e
      (record (apply_status now c.status (edit_fields c e)) { updated_at = now })
      (λ p. apply_status-running now c.status (edit_fields c e) h p)

-- The change that an update makes to its entry, once `_validateUpdate` accepts the input, neither starts
-- the entry nor takes a running entry from its task, whatever status it asks for: after the change the
-- entry runs if and only if it ran before. This is the change alone, before the reconciliation that
-- follows it, which may start a pending entry.
pub update_keeps_running :
    (now : Text) (input : Json) (c : Changes) (e : Entry)
    → validate_update input ≡ valid c
    → is_running (entry_after e (update_entry now c e)).status ≡ is_running e.status
update_keeps_running now input c e h =
    update-running now c e
      (ap (λ x. asks_running (asked x)) (sym h) ∙ validate_update-not_running input)

-- The map after a deletion, which is as it was if it is refused.
abbrev pub map_after : Map Entry → DeleteReply → Map Entry
map_after m (removed n) = n
map_after m (kept r) = m

if-kept :
    (b : Bool) (r k : Text) (m n : Map Entry) (o : Option Entry)
    → lookup k m ≡ o
    → (b ≡ false → lookup k n ≡ o)
    → lookup k (map_after m (if b then kept r else removed n)) ≡ o
if-kept true r k m n o p q = p
if-kept false r k m n o p q = q refl

other_id :
    (id k : Text) (m : Map Entry) (d e : Entry)
    → lookup id m ≡ some d
    → lookup k m ≡ some e
    → (text_eq id k && not (is_running e.status)) ≡ false
    → is_running d.status ≡ false
    → text_eq id k ≡ false
other_id id k m d e a h p idle = elim (Bool-cases (text_eq id k)) [
  | inr other ↦ other
  | inl equal ↦
      let found = sym a ∙ ap (λ x. lookup x m) ((text_eq_iff id k).0 equal) ∙ h in
      let stopped =
        subst (λ (x : Entry). is_running x.status ≡ false) (some-injective d e found) idle in
      absurd (ground arith)
]

found_spared :
    (id k : Text) (m : Map Entry) (e : Entry) (o : Option Entry)
    → lookup id m ≡ o
    → lookup k m ≡ some e
    → (text_eq id k && not (is_running e.status)) ≡ false
    → lookup k (map_after m (delete_known id m o)) ≡ some e
found_spared id k m e none a h p = h
found_spared id k m e (some d) a h p =
    if-kept (is_running d.status) (lit "entry_running") k m (remove id m) (some e) h
      (λ idle. rw (lookup-remove id k m, other_id id k m d e a h p idle) h)

-- A deletion spares every entry with another id, and the entry with this id if it runs.
pub delete_spares :
    (id k : Text) (m : Map Entry) (e : Entry)
    → lookup k m ≡ some e
    → (text_eq id k && not (is_running e.status)) ≡ false
    → lookup k (map_after m (delete id m)) ≡ some e
unfolding delete
delete_spares id k m e h p = found_spared id k m e (lookup id m) refl h p

module _ {S : Type 0} (service : TaskService S) (max_agents : ℕ) where
  kept_id :
      (now : Text) (by_age : List Entry → List Entry) (v : NewEntry) (s : S) (m : Map Entry)
      (id : Option Text)
      → (create_with service max_agents now by_age v s m id).2 ≡ id
  kept_id now by_age v s m none = refl
  kept_id now by_age v s m (some id) = refl

  create-id :
      (now : Text) (ids : List Text) (by_age : List Entry → List Entry) (input : Json)
      (v : NewEntry) (s : S) (m : Map Entry)
      → validate_create input ≡ valid v
      → (create service max_agents now ids by_age input s m).2 ≡ fresh_key ids m
  unfolding create
  create-id now ids by_age input v s m h = rw h (kept_id now by_age v s m (fresh_key ids m))

  -- An input that `_validateCreate` accepts gives a new entry an id that no entry has, as long as the
  -- generator's ids are distinct and more than the entries.
  pub create_total :
      (now : Text) (ids : List Text) (by_age : List Entry → List Entry) (input : Json)
      (v : NewEntry) (s : S) (m : Map Entry)
      → validate_create input ≡ valid v
      → AreDistinct ids
      → length m < length ids
      → (id : Text) × ((create service max_agents now ids by_age input s m).2 ≡ some id)
        × (lookup id m ≡ none)
        × (is_empty id ≡ false)
  create_total now ids by_age input v s m h d n =
      let (id, found) = fresh_key_total m ids d n in
      let unused = fresh_key_unused m ids found in
      (
        id,
        create-id now ids by_age input v s m h ∙ found,
        lookup_of_not_has id m unused.0,
        unused.1,
      )
