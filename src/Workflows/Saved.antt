-- ===== src/Workflows/Saved.antt =====
-- Workflow sessions on disk: `_serializeForDisk`, `_hydrateSession` and `_loadPersistedSessions`
-- of src/workflows/workflowManager.js. The states of the history stand on disk with the latest last.
use ender.Prelude.{
  Bool, true, not, ◌||◌, List, [], ◌∷◌, ◌++◌, Option, none, some, Text, lit, text_eq, text_or, Map,
  has, insert, if◌then◌else◌, ◌≡◌, refl, ap, ◌∙◌,
}
use ender.Json.{Json, boolean, string, array, object, Fields, end, field}
use ender.Json.Read.{
  member, string_or, js_string, is_truthy, is_not_false, array_items, items_of, object_if,
}
use ender.Json.Read.Back.{IsFull, string_or-string, js_string-string}
use ender.Records.{
  Migrated, bind, current_version, set_field, with_version, migrate_persisted, version_persisted,
}
use ender.Records.Laws.{migrate-version_persisted}
use ender.Workflows.{Workflow, Session, Sessions, kept}

abbrev pub session_kind : Text
session_kind = lit "workflowSession"

unfoldable pub latest_last {ℓ} : {A : Type ℓ} → List A → List A
latest_last [] = []
latest_last (x ∷ xs) = latest_last xs ++ x ∷ []

abbrev pub session_fields : Session → Fields
session_fields s = field (lit "id") (string s.id) (
    field (lit "workflowId") (string s.workflow_id) (
      field (lit "mode") (string (text_or s.mode (lit "interactive"))) (
        field (lit "status") (string (text_or s.status (lit "active"))) (
          field (lit "shouldPersist") (boolean s.persists) (
            field (lit "createdAt") (string s.created_at) (
              field (lit "updatedAt") (string s.updated_at) (
                field (lit "history") (array (items_of (latest_last s.history)))
                  (field (lit "state") s.state end))))))))

-- `_serializeForDisk`
unfoldable pub serialize_for_disk : Session → Option Fields
unfolding version_persisted latest_last
serialize_for_disk s = version_persisted session_kind (object (session_fields s))

abbrev pub value_or_undefined : Option Json → Text
value_or_undefined none = lit "undefined"
value_or_undefined (some j) = js_string j

abbrev pub hydrated_state : Option Json → Json
hydrated_state none = object end
hydrated_state (some j) = j

-- `_hydrateSession`
unfoldable pub hydrate_session : Text → Json → Session
unfolding latest_last
hydrate_session now j = record {
  id = value_or_undefined (member (lit "id") j);
  workflow_id = value_or_undefined (member (lit "workflowId") j);
  mode = string_or (member (lit "mode") j) (lit "interactive");
  status = string_or (member (lit "status") j) (lit "active");
  persists = is_not_false (member (lit "shouldPersist") j);
  is_resumed = true;
  created_at = string_or (member (lit "createdAt") j) now;
  updated_at = string_or (member (lit "updatedAt") j) now;
  history = latest_last (array_items (member (lit "history") j));
  state = hydrated_state (object_if (member (lit "state") j));
}

abbrev put_session : Bool → Session → Sessions → Sessions
put_session migrated s m = if migrated then kept s m else record m { items = insert s.id s m.items }

abbrev pub load_migrated : Map Workflow → Text → Sessions → Option Migrated → Sessions
load_migrated definitions now m none = m
load_migrated definitions now m (some r) =
    let j = object r.fields in
    if not (is_truthy (member (lit "id") j)) || not (is_truthy (member (lit "workflowId") j))
    then m
    else if not (has (value_or_undefined (member (lit "workflowId") j)) definitions)
    then m
    else put_session r.migrated (hydrate_session now j) m

abbrev pub load_parsed : Map Workflow → Text → Sessions → Option Json → Sessions
load_parsed definitions now m none = m
load_parsed definitions now m (some j) =
    load_migrated definitions now m (migrate_persisted j session_kind)

-- `_loadPersistedSessions`, over what the files hold; `none` is a text that is not JSON.
unfoldable pub load_sessions : Map Workflow → Text → List (Option Json) → Sessions → Sessions
unfolding hydrate_session migrate_persisted
load_sessions definitions now [] m = m
load_sessions definitions now (o ∷ rest) m =
    load_sessions definitions now rest (load_parsed definitions now m o)

-- A session as the program makes it: its texts are not empty and its state is an object.
pub record IsStored (s : Session) : Type 0 where
  pub mode : IsFull s.mode
  pub status : IsFull s.status
  pub created_at : IsFull s.created_at
  pub updated_at : IsFull s.updated_at
  pub state : object_if (some s.state) ≡ some s.state

full_or : (s d : Text) → IsFull s → string_or (some (string (text_or s d))) d ≡ s
full_or [] d h = cc
full_or (c ∷ s) d h = string_or-string (c ∷ s) d refl

latest_last-append {ℓ} :
    {A : Type ℓ} (xs : List A) (x : A) → latest_last (xs ++ x ∷ []) ≡ x ∷ latest_last xs
unfolding latest_last
latest_last-append [] x = refl
latest_last-append (y ∷ xs) x = ap (λ ys. ys ++ y ∷ []) (latest_last-append xs x)

latest_last_twice {ℓ} : {A : Type ℓ} (xs : List A) → latest_last (latest_last xs) ≡ xs
unfolding latest_last
latest_last_twice [] = refl
latest_last_twice (x ∷ xs) =
    latest_last-append (latest_last xs) x ∙ ap (λ ys. x ∷ ys) (latest_last_twice xs)

items_back : (js : List Json) → array_items (some (array (items_of js))) ≡ js
unfolding array_items
items_back [] = refl
items_back (j ∷ js) = ap (λ js. j ∷ js) (items_back js)

not_false : (b : Bool) → is_not_false (some (boolean b)) ≡ b
unfolding is_not_false
not_false b = refl

session_version : current_version session_kind ≡ some 1
unfolding current_version text_eq lit
session_version = refl

hydrate_stamped :
    (now : Text) (s : Session)
    → IsStored s
    → hydrate_session now (object (with_version 1 (session_fields s)))
      ≡ record s { is_resumed = true }
unfolding hydrate_session with_version lit text_eq js_string set_field
hydrate_stamped now s v = λ i. record s {
  is_resumed = true;
  id = js_string-string s.id i;
  workflow_id = js_string-string s.workflow_id i;
  mode = full_or s.mode (lit "interactive") v.mode i;
  status = full_or s.status (lit "active") v.status i;
  persists = not_false s.persists i;
  created_at = string_or-string s.created_at now v.created_at i;
  updated_at = string_or-string s.updated_at now v.updated_at i;
  history = (ap latest_last (items_back (latest_last s.history)) ∙ latest_last_twice s.history) i;
  state = ap hydrated_state v.state i;
}

-- A session that the program made is read back from its file as it was, marked as resumed, its history
-- in order.
pub hydrate-serialize_for_disk :
    (now : Text) (s : Session)
    → IsStored s
    → let read = bind (serialize_for_disk s) (λ fs. migrate_persisted (object fs) session_kind) in
      bind read (λ r. some (hydrate_session now (object r.fields)))
      ≡ some (record s { is_resumed = true })
unfolding serialize_for_disk
hydrate-serialize_for_disk now s v =
    ap (λ o. bind o (λ r. some (hydrate_session now (object r.fields))))
      (migrate-version_persisted (session_fields s) session_kind 1 session_version)
    ∙ ap some (hydrate_stamped now s v)
