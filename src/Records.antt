-- ===== src/Records.antt =====
-- Records on disk, their versions and migrations: src/persistence/jsonRecord.js and
-- src/runtime/taskRecord.js.
pub mod Laws
use ender.Prelude.{
  ℕ, zero, suc, ◌-◌, Bool, true, false, not, List, [], ◌∷◌, Option, none, some, Text, lit, text_eq,
  ltb, ◌==◌, if◌then◌else◌,
}
use ender.Json.{Json, null, number, object, Fields, end, field, natural}
use ender.Json.Read.{find_field}

-- PERSISTED_RECORD_VERSIONS: the kinds, all at version 1. A caller gives one of these; the names that
-- every JavaScript object has besides are not kinds.
abbrev pub kinds : List Text
kinds =
    lit "workflowSession"
    ∷ lit "schedule"
    ∷ lit "taskLedgerEntry"
    ∷ lit "project"
    ∷ lit "memory"
    ∷ lit "beaconStore"
    ∷ lit "pillarStore"
    ∷ lit "codeServerSession"
    ∷ lit "selfUpdateCheckpoint"
    ∷ []

abbrev pub version_in : List Text → Text → Option ℕ
version_in [] k = none
version_in (j ∷ js) k = if text_eq j k then some 1 else version_in js k

-- currentPersistedRecordVersion; `none` is an exception, here and below.
unfoldable pub current_version : Text → Option ℕ
current_version k = version_in kinds k

abbrev pub version_key : Text
version_key = lit "recordVersion"

abbrev pub version_of : Option Json → Option ℕ
version_of none = some 0
version_of (some null) = some 0
version_of (some (number (natural n))) = some n
version_of (some _) = none

-- getPersistedRecordVersion and getTaskRecordVersion, of an object.
unfoldable pub record_version : Fields → Option ℕ
record_version fs = version_of (find_field version_key fs)

-- `{ ...record, [k]: v }`
unfoldable pub set_field : Text → Json → Fields → Fields
set_field k v end = field k v end
set_field k v (field j w fs) = if text_eq j k then field j v fs else field j w (set_field k v fs)

unfoldable pub with_version : ℕ → Fields → Fields
with_version n fs = set_field version_key (number (natural n)) fs

-- The answer of a migration.
pub record Migrated : Type 0 where
  pub fields : Fields
  pub from_version : ℕ
  pub version : ℕ
  pub migrated : Bool

-- One turn of the loop: `migrations.get(version)` is there for version 0 only.
abbrev pub migration : ℕ → ℕ → Fields → Option Fields
migration current zero fs = some (with_version current fs)
migration current (suc n) fs = none

abbrev pub bind {ℓ κ} : {A : Type ℓ} {B : Type κ} → Option A → (A → Option B) → Option B
bind none k = none
bind (some a) k = k a

-- The loop: the record with its version, as long as that is less than the current one.
unfoldable pub migrate_loop : ℕ → ℕ → Fields → ℕ → Option (Fields × ℕ)
unfolding record_version with_version
migrate_loop zero current fs version = if ltb version current then none else some (fs, version)
migrate_loop (suc fuel) current fs version =
    let next =
      bind (migration current version fs)
        (λ gs. bind (record_version gs) (λ v. migrate_loop fuel current gs v)) in
    if ltb version current then next else some (fs, version)

abbrev pub finish : ℕ → Option (Fields × ℕ) → Option Migrated
finish from none = none
finish from (some (fs, v)) =
    some (record { fields = fs; from_version = from; version = v; migrated = not (from == v) })

abbrev pub migrate_from : ℕ → Fields → ℕ → Option Migrated
migrate_from current fs from =
    if ltb current from then none else finish from (migrate_loop current current fs from)

-- The common part of migratePersistedRecord and migrateTaskRecord; each version takes a turn at most.
unfoldable pub migrate_to : ℕ → Json → Option Migrated
unfolding migrate_loop record_version
migrate_to current (object fs) = bind (record_version fs) (migrate_from current fs)
migrate_to current _ = none

-- migratePersistedRecord
unfoldable pub migrate_persisted : Json → Text → Option Migrated
unfolding current_version migrate_to
migrate_persisted input k = bind (current_version k) (λ current. migrate_to current input)

-- TASK_RECORD_VERSION
abbrev pub task_record_version : ℕ
task_record_version = 1

-- migrateTaskRecord
unfoldable pub migrate_task : Json → Option Migrated
unfolding migrate_to
migrate_task input = migrate_to task_record_version input

-- versionPersistedRecord
unfoldable pub version_persisted : Text → Json → Option Fields
unfolding current_version with_version
version_persisted k (object fs) =
    bind (current_version k) (λ current. some (with_version current fs))
version_persisted k _ = none
