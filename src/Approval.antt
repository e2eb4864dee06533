-- ===== src/Approval.antt =====
-- The approvals that a task waits for: src/runtime/taskApprovalCoordinator.js. A promise is the id
-- of its approval, and what settles it is a decision; `resolve` of a restored record settles nothing.
pub mod Laws
use ender.Prelude.{
  ℕ, Bool, true, false, ◌||◌, List, [], ◌∷◌, ◌++◌, map, Option, none, some, Text, lit, Map, lookup,
  insert, remove, values, length, is_empty, text_of, text_or, or_else, fresh_key, if◌then◌else◌,
}
use ender.Json.{Json, object, end}

pub record Approval : Type 0 where
  pub id : Text
  pub kind : Text
  pub title : Text
  pub description : Text
  pub details : Json
  pub requested_at : Text

-- What a caller or a stored record gives; an absent field is `none`.
pub record Payload : Type 0 where
  pub id : Option Text
  pub kind : Option Text
  pub title : Option Text
  pub description : Option Text
  pub details : Option Json
  pub requested_at : Option Text

-- normalizeApproval: the defaults' id and time come first, and an empty text counts as absent.
unfoldable pub normalize : Payload → Option Text → Text → Approval
normalize input id requested_at = record {
  id = text_or (text_of id) (text_of input.id);
  kind = text_or (text_of input.kind) (lit "generic");
  title = text_or (text_of input.title) (lit "Approval required");
  description = text_or (text_of input.description) (lit "Please confirm this action");
  details = or_else input.details (object end);
  requested_at = requested_at;
}

-- A pending approval; `live` tells a requested one from one that was read back from a record.
pub record Pending : Type 0 where
  pub approval : Approval
  pub live : Bool

abbrev pub Store : Type 0
Store = Map Pending

-- The decision that a promise is settled with.
pub record Decision : Type 0 where
  pub id : Text
  pub approved : Bool

unfoldable pub create_store_from : Store → Text → List Payload → Store
create_store_from s now [] = s
create_store_from s now (r ∷ rs) =
    let a = normalize r none (text_or (text_of r.requested_at) now) in
    create_store_from
      (if is_empty a.id then s else insert a.id (record { approval = a; live = false }) s) now rs

unfoldable pub create_store : Text → List Payload → Store
create_store = create_store_from []

unfoldable pub count : Store → ℕ
count s = length s

unfoldable pub list : Store → List Approval
list s = map (λ (p : Pending). p.approval) (values s)

-- `none` if the generator's ids run out. The promise is named by the approval's id.
unfoldable pub add_pending : Text → Store → Payload → Option Text → Option (Store × Approval)
add_pending now s payload none = none
add_pending now s payload (some id) = some (
  insert id (record { approval = normalize payload (some id) now; live = true }) s,
  normalize payload (some id) now,
)

unfoldable pub request : List Text → Text → Store → Payload → Option (Store × Approval)
unfolding add_pending
request ids now s payload = add_pending now s payload (fresh_key ids s)

unfoldable pub settle : Pending → Bool → List Decision
settle p approved = if p.live then record { id = p.approval.id; approved = approved } ∷ [] else []

pub record Resolution : Type 0 where
  pub approval : Approval
  pub remaining : ℕ
  pub store : Store
  pub decisions : List Decision

unfoldable pub take_pending : Store → Text → Bool → Option Pending → Option Resolution
take_pending s id approved none = none
take_pending s id approved (some p) = some (record {
  approval = p.approval;
  remaining = length (remove id s);
  store = remove id s;
  decisions = settle p approved;
})

-- `none` is the error `approval_not_found`.
unfoldable pub resolve : Store → Text → Bool → Option Resolution
unfolding take_pending
resolve s id approved = take_pending s id approved (lookup id s)

unfoldable pub reject_all : Store → List Decision
reject_all [] = []
reject_all ((k, p) ∷ s) = settle p false ++ reject_all s
