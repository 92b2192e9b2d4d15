-- ===== src/Memory/Layer.antt =====
-- `MemoryLayer` and its `RecordsProxy` (agi_platform/memory/core.py): every call needs the context of a
-- tenant, except those of the proxy.
use agi_platform.Prelude.{
  ℕ, String, List, [], map, Bool, true, Option, none, some, Dict, Result, ok, raise,
}
use agi_platform.Security.Permissions.{TenantContext}
use agi_platform.Memory.Values.{Values, MemoryError, permission_error, MemoryRecord}
use agi_platform.Memory.Tables.{Schema, Db}
use agi_platform.Memory.Entries.{to_record}
use agi_platform.Memory.Store
use agi_platform.Memory.Revision
use agi_platform.Memory.Search
use agi_platform.Memory.Search.{Ranked, Consolidation}

module _ (v : Values) (schema : Schema v) where
  -- `RecordsProxy.clear`
  unfoldable pub clear : Db v schema → Db v schema
  clear db = record db {
    audit = schema.audit.delete db.audit (λ r. true);
    evidence = schema.evidence.delete db.evidence (λ r. true);
    versions = [];
    memories = schema.memories.delete db.memories (λ r. true);
  }

  -- `RecordsProxy.values`
  unfoldable pub values : Db v schema → List (MemoryRecord v.Float v.Json)
  values db = map (to_record v) (schema.memories.rows db.memories)

  unfoldable pub store :
      Bool
      → Db v schema
      → String
      → String
      → Option (Dict v.Json)
      → Option TenantContext
      → ℕ
      → String
      → String
      → Db v schema × Result MemoryError (MemoryRecord v.Float v.Json)
  store qdrant_available db content memory_type metadata none now evidence_id audit_id =
      (db, raise permission_error)
  store qdrant_available db content memory_type metadata (some context) now evidence_id audit_id =
      Store.store v schema qdrant_available db context content memory_type metadata now evidence_id
        audit_id

  unfoldable pub search :
      Db v schema
      → String
      → ℕ
      → Option TenantContext
      → Result MemoryError (List (Ranked v.Float v.Json))
  search db query limit none = raise permission_error
  search db query limit (some context) = ok (Search.search v schema db context query limit)

  unfoldable pub update :
      Db v schema
      → String
      → String
      → ℕ
      → Option TenantContext
      → ℕ
      → String
      → Db v schema × Result MemoryError (MemoryRecord v.Float v.Json)
  update db memory_id content expected_version none now audit_id = (db, raise permission_error)
  update db memory_id content expected_version (some context) now audit_id =
      Revision.update v schema db context memory_id content expected_version now audit_id

  unfoldable pub rollback :
      Db v schema
      → String
      → ℕ
      → Option TenantContext
      → ℕ
      → String
      → Db v schema × Result MemoryError (MemoryRecord v.Float v.Json)
  rollback db memory_id version none now audit_id = (db, raise permission_error)
  rollback db memory_id version (some context) now audit_id =
      Revision.rollback v schema db context memory_id version now audit_id

  unfoldable pub consolidate :
      Db v schema → Option TenantContext → Result MemoryError (Consolidation v)
  consolidate db none = raise permission_error
  consolidate db (some context) = ok (Search.consolidate v schema db context)
