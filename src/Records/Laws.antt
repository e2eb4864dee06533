-- ===== src/Records/Laws.antt =====
-- The migration of records: it ends, keeps all other fields, and reads back what was stamped.
use ender.Prelude.{
  ℕ, zero, suc, ◌≤◌, Bool, true, false, List, [], ◌∷◌, Option, none, some, Text, text_eq,
  text_eq_iff, ltb, ◌==◌, if◌then◌else◌, ◌≡◌, refl, arith,
}
use ender.Json.{Json, number, object, Fields, end, field, natural}
use ender.Json.Read.{find_field}
use ender.Records.{
  current_version, version_in, kinds, version_key, record_version, set_field, with_version,
  Migrated, bind, migrate_loop, migrate_from, migrate_to, migrate_persisted, migrate_task,
  version_persisted,
}

find_field-set_field :
    (k j : Text) (v : Json) (fs : Fields)
    → find_field j (set_field k v fs) ≡ (if text_eq k j then some v else find_field j fs)
unfolding set_field
find_field-set_field k j v end = refl
find_field-set_field k j v (field i w fs) =
    ground (arith, text_eq_iff k j, text_eq_iff i k, text_eq_iff i j, find_field-set_field k j v fs)

record_version-with_version : (n : ℕ) (fs : Fields) → record_version (with_version n fs) ≡ some n
unfolding record_version with_version
record_version-with_version n fs = rw (
  find_field-set_field version_key version_key (number (natural n)) fs,
  (text_eq_iff version_key version_key).1 refl,
)

from_zero :
    (fs : Fields)
    → migrate_from 1 fs 0
      ≡ some (record { fields = with_version 1 fs; from_version = 0; version = 1; migrated = true })
unfolding migrate_loop
from_zero fs = rw (record_version-with_version 1 fs)

from_one :
    (fs : Fields)
    → migrate_from 1 fs 1
      ≡ some (record { fields = fs; from_version = 1; version = 1; migrated = false })
unfolding migrate_loop
from_one fs = refl

-- What a migration to version 1 makes of a record.
abbrev pub IsMigration : Fields → ℕ → Migrated → Type 0
IsMigration fs v m =
    (record_version m.fields ≡ some 1)
    × (m.from_version ≡ v)
    × (m.version ≡ 1)
    × (m.migrated ≡ (v == 0))
    × ((j : Text) → text_eq version_key j ≡ false → find_field j m.fields ≡ find_field j fs)

migrate_from_lem :
    (fs : Fields) (v : ℕ)
    → record_version fs ≡ some v
    → v ≤ 1
    → (m : Migrated) × (migrate_from 1 fs v ≡ some m) × IsMigration fs v m
unfolding with_version
migrate_from_lem fs zero h n = (
  record { fields = with_version 1 fs; from_version = 0; version = 1; migrated = true },
  from_zero fs,
  (
    record_version-with_version 1 fs,
    refl,
    refl,
    refl,
    λ j e. rw (find_field-set_field version_key j (number (natural 1)) fs, e),
  ),
)
migrate_from_lem fs (suc zero) h n = (
  record { fields = fs; from_version = 1; version = 1; migrated = false },
  from_one fs,
  (h, refl, refl, refl, λ j e. refl),
)
migrate_from_lem fs (suc (suc v)) h n = absurd (omega arith)

if-one :
    (b : Bool) (rest : Option ℕ) (c : ℕ)
    → (rest ≡ some c → rest ≡ some 1)
    → (if b then some 1 else rest) ≡ some c
    → (if b then some 1 else rest) ≡ some 1
if-one true rest c p h = refl
if-one false rest c p h = p h

version_in_one :
    (js : List Text) (k : Text) (c : ℕ) → version_in js k ≡ some c → version_in js k ≡ some 1
version_in_one [] k c h = absurd (ground arith)
version_in_one (j ∷ js) k c h = if-one (text_eq j k) (version_in js k) c (version_in_one js k c) h

-- The two migrations agree: a record of a known kind is migrated as a task record is.
pub persisted_as_task :
    (input : Json) (k : Text) (c : ℕ)
    → current_version k ≡ some c
    → migrate_persisted input k ≡ migrate_task input
unfolding migrate_persisted migrate_task current_version
persisted_as_task input k c h = rw (version_in_one kinds k c h)

-- A JSON object whose version is absent, null, 0 or 1 is migrated: the result reads as version 1, the
-- version that it had is told, it counts as migrated exactly if that was 0, and no other field changes.
pub migrate_task_total :
    (fs : Fields) (v : ℕ)
    → record_version fs ≡ some v
    → v ≤ 1
    → (m : Migrated) × (migrate_task (object fs) ≡ some m) × IsMigration fs v m
unfolding migrate_task migrate_to
migrate_task_total fs v h n = rw h (migrate_from_lem fs v h n)

more : (v : ℕ) → ltb 1 (suc (suc v)) ≡ true
more v = ground arith

newer : (fs : Fields) (v : ℕ) → 2 ≤ v → migrate_from 1 fs v ≡ none
newer fs zero h = absurd (omega arith)
newer fs (suc zero) h = absurd (omega arith)
newer fs (suc (suc v)) h = rw (more v)

-- A record of a newer version is refused.
pub newer_refused :
    (fs : Fields) (v : ℕ) → record_version fs ≡ some v → 2 ≤ v → migrate_task (object fs) ≡ none
unfolding migrate_task migrate_to
newer_refused fs v h n = rw h (newer fs v n)

-- A record that was stamped with the version of its kind is read back as it was stamped, without a
-- migration.
pub migrate-version_persisted :
    (fs : Fields) (k : Text) (c : ℕ)
    → current_version k ≡ some c
    → bind (version_persisted k (object fs)) (λ gs. migrate_persisted (object gs) k)
      ≡ some
          (record { fields = with_version 1 fs; from_version = 1; version = 1; migrated = false })
unfolding version_persisted migrate_persisted current_version migrate_to
migrate-version_persisted fs k c h =
    rw (version_in_one kinds k c h, record_version-with_version 1 fs) (from_one (with_version 1 fs))
