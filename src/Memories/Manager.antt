-- ===== src/Memories/Manager.antt =====
-- The calls of the memory manager, src/runtime/memoryManager.js: `create`, `update`, `archive`,
-- `compactThread`, `get`, and the loading of the saved records. Each call writes the record of the
-- memory that it changes.
use ender.Prelude.{
  List, [], ◌∷◌, ◌++◌, Option, none, some, Text, lit, is_empty, trim, take, map, text_or, Map,
  insert, lookup, if◌then◌else◌,
}
use ender.Json.{Json, null, number, string, array, object, Number}
use ender.Json.Read.{string_of, string_or, trimmed, member, or_truthy, items_of, is_text}
use ender.Records.{Migrated, migrate_persisted}
use ender.Task.Record.{Message}
use ender.Memories.{
  Memory, Value, Draft, Scope, LoadPolicy, Status, active, archived, status_of, scope_text,
  kind_text, policy_text, note, Verdict, accepted, rejected, validate, serialize,
}
use ender.Memories.Pack.{PackTask, build_thread_summary}

pub record Memories : Type 0 where
  pub items : Map Memory
  pub files : Map Memory

pub data MemoryReply : Type 0 where
  remembered : Memory → MemoryReply
  refused : Text → MemoryReply

abbrev pub draft_of : Json → Draft
draft_of j = record {
  scope = member (lit "scope") j;
  kind = member (lit "kind") j;
  title = member (lit "title") j;
  body = member (lit "body") j;
  project_id = member (lit "projectId") j;
  thread_id = member (lit "sourceThreadId") j;
  tags = member (lit "tags") j;
  load_policy = member (lit "loadPolicy") j;
  confidence = member (lit "confidence") j;
}

abbrev pub json_or_null : Option Text → Json
json_or_null none = null
json_or_null (some s) = string s

abbrev pub number_or_null : Option Number → Json
number_or_null none = null
number_or_null (some n) = number n

abbrev pub given_or : Option Json → Json → Option Json
given_or none v = some v
given_or (some j) v = some j

-- `{ ...current, ...input }`
unfoldable pub merge : Draft → Value → Draft
merge d v = record {
  scope = given_or d.scope (string (scope_text v.scope));
  kind = given_or d.kind (string (kind_text v.kind));
  title = given_or d.title (string v.title);
  body = given_or d.body (string v.body);
  project_id = given_or d.project_id (json_or_null v.project_id);
  thread_id = given_or d.thread_id (json_or_null v.thread_id);
  tags = given_or d.tags (array (items_of (map string v.tags)));
  load_policy = given_or d.load_policy (string (policy_text v.load_policy));
  confidence = given_or d.confidence (number_or_null v.confidence);
}

-- The memory goes into the map and to disk.
abbrev pub store : Memory → Memories → Memories × MemoryReply
store m s = (
  record { items = insert m.id m s.items; files = insert m.id (serialize m) s.files },
  remembered (serialize m),
)

abbrev pub status_or : Option Status → Status → Status
status_or none s = s
status_or (some t) s = t

module _ (parse_number : Text → Option Number) where
  abbrev pub create_if : Text → Text → Memories → Verdict → Memories × MemoryReply
  create_if now id s (rejected e) = (s, refused e)
  create_if now id s (accepted v) =
      store (record { id = id; value = v; status = active; created_at = now; updated_at = now }) s

  -- `create`
  unfoldable pub create_memory : Text → Text → Draft → Memories → Memories × MemoryReply
  unfolding validate serialize
  create_memory now id d s = create_if now id s (validate parse_number d)

  abbrev pub update_if : Text → Option Json → Memory → Memories → Verdict → Memories × MemoryReply
  update_if now status m s (rejected e) = (s, refused e)
  update_if now status m s (accepted v) =
      store
        (record m {
          value = v;
          updated_at = now;
          status = status_or (status_of (string_of status)) m.status;
        })
        s

  abbrev pub update_known :
      Text → Draft → Option Json → Memories → Option Memory → Memories × MemoryReply
  update_known now d status s none = (s, refused (lit "not_found"))
  update_known now d status s (some m) =
      update_if now status m s (validate parse_number (merge d m.value))

  -- `update`; `status` is the field of the input that `_validate` does not read.
  unfoldable pub update_memory :
      Text → Text → Draft → Option Json → Memories → Memories × MemoryReply
  unfolding validate merge serialize
  update_memory now id d status s = update_known now d status s (lookup (trim id) s.items)

  -- `compactThread`; `none` is no task. The confidence is 0.7.
  unfoldable pub compact_thread :
      Text → Text → Option PackTask → List Message → Json → Memories → Memories × MemoryReply
  unfolding create_memory build_thread_summary
  compact_thread now id none thread input s = (s, refused (lit "thread_required"))
  compact_thread now id (some t) thread input s =
      let body = text_or (trimmed (member (lit "body") input)) (build_thread_summary thread) in
      if is_empty t.id
      then (s, refused (lit "thread_required"))
      else if is_empty body
      then (s, refused (lit "thread_empty"))
      else create_memory now id
          (record {
            scope = some (string (lit "thread"));
            kind = some (string (lit "summary"));
            title =
                or_truthy (member (lit "title") input)
                  (some (string (lit "Thread summary " ++ take 8 t.id)));
            body = some (string body);
            project_id = some (json_or_null t.project_id);
            thread_id = some (string t.id);
            tags = some (array (items_of (string (lit "thread-summary") ∷ [])));
            load_policy = some (string (lit "auto"));
            confidence = some (number (Number.fraction (lit "0.7")));
          })
          s

  -- The value of a record that `_validate` refuses.
  abbrev pub value_or : Json → Verdict → Value
  value_or saved (accepted v) = v
  value_or saved (rejected e) = record {
    scope = Scope.global;
    kind = note;
    title = string_or (member (lit "title") saved) (lit "Untitled memory");
    body = string_of (member (lit "body") saved);
    project_id = none;
    thread_id = none;
    tags = [];
    load_policy = LoadPolicy.manual;
    confidence = none;
  }

  -- `_hydrate`
  unfoldable pub hydrate : Text → Text → Json → Memory
  unfolding validate
  hydrate now drawn saved = record {
    id = string_or (member (lit "id") saved) drawn;
    value = value_or saved (validate parse_number (draft_of saved));
    status = if is_text (lit "archived") (member (lit "status") saved) then archived else active;
    created_at = string_or (member (lit "createdAt") saved) now;
    updated_at = string_or (member (lit "updatedAt") saved) now;
  }

  abbrev pub load_migrated : Text → Text → Memories → Option Migrated → Memories
  load_migrated now drawn s none = s
  load_migrated now drawn s (some r) =
      let m = hydrate now drawn (object r.fields) in
      if is_empty m.value.body then s else record {
        items = insert m.id m s.items;
        files = if r.migrated then insert m.id (serialize m) s.files else s.files;
      }

  -- `_loadPersistedMemories`, over the texts on disk that are JSON, each with an id to draw.
  unfoldable pub load_memories : Text → List (Text × Json) → Memories → Memories
  unfolding hydrate serialize migrate_persisted
  load_memories now [] s = s
  load_memories now ((drawn, saved) ∷ rest) s =
      load_memories now rest (load_migrated now drawn s (migrate_persisted saved (lit "memory")))

-- `archive`
abbrev pub archive_known : Text → Memories → Option Memory → Memories × MemoryReply
archive_known now s none = (s, refused (lit "not_found"))
archive_known now s (some m) = store (record m { status = archived; updated_at = now }) s

unfoldable pub archive : Text → Text → Memories → Memories × MemoryReply
unfolding serialize
archive now id s = archive_known now s (lookup (trim id) s.items)
