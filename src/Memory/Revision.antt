-- ===== src/Memory/Revision.antt =====
-- `update` and `rollback` of `DurableMemoryStore` (agi_platform/memory/core.py), which are transactions.
use agi_platform.Prelude.{
  ℕ, ◌+◌, String, ◌==◌, List, [], ◌∷◌, not, Option, none, some, eqb, Result, ◌>>=◌, or_raise, ok,
  raise, if◌then◌else◌,
}
use agi_platform.Security.Permissions.{TenantContext}
use agi_platform.Database.{select}
use agi_platform.Database.Rows.{MemoryRow, MemoryVersionRow}
use agi_platform.Memory.Values.{
  Values, MemoryError, key_error, integrity_error, multiple_results, optimistic_concurrency_error,
  MemoryRecord,
}
use agi_platform.Memory.Tables.{Schema, Db, is_version, add_version}
use agi_platform.Memory.Entries.{to_record, version_of}
use agi_platform.Memory.Store.{committed, write_audit}

module _ (v : Values) (schema : Schema v) where
  -- What `update` and `rollback` do to the row that they have found: it becomes `row`, which is
  -- recorded as a version.
  unfoldable pub revise :
      Db v schema
      → TenantContext
      → MemoryRow v.Float v.Json
      → v.Json
      → String
      → v.Json
      → ℕ
      → String
      → Result MemoryError (Db v schema × MemoryRecord v.Float v.Json)
  unfolding version_of write_audit
  revise db context row provenance action metadata now audit_id = do
    versions ←
        or_raise integrity_error
          (add_version v db.versions (record (version_of v row now) { provenance = provenance }))
    db' ←
        write_audit v schema
          (record db { memories = schema.memories.put db.memories row; versions = versions })
          context action row.id metadata now audit_id
    ok (db', to_record v row)

  -- The row with another content, as its next version.
  unfoldable pub revised : MemoryRow v.Float v.Json → String → ℕ → MemoryRow v.Float v.Json
  revised row content now = record row {
    content = content;
    version = row.version + 1;
    updated_at = now;
  }

  unfoldable pub update_row :
      Db v schema
      → TenantContext
      → String
      → ℕ
      → ℕ
      → String
      → Option (MemoryRow v.Float v.Json)
      → Result MemoryError (Db v schema × MemoryRecord v.Float v.Json)
  unfolding revise revised
  update_row db context content expected_version now audit_id none = raise key_error
  update_row db context content expected_version now audit_id (some row) =
      if not (row.tenant_id == context.tenant_id)
      then raise key_error
      else if not (eqb row.version expected_version)
      then raise optimistic_concurrency_error
      else revise db context (revised row content now) row.provenance "memory.update"
          (v.object (("version", v.number (row.version + 1)) ∷ [])) now audit_id

  -- `update`
  unfoldable pub update :
      Db v schema
      → TenantContext
      → String
      → String
      → ℕ
      → ℕ
      → String
      → Db v schema × Result MemoryError (MemoryRecord v.Float v.Json)
  unfolding update_row
  update db context memory_id content expected_version now audit_id = committed db (
      update_row db context content expected_version now audit_id
        (schema.memories.find db.memories memory_id))

  unfoldable pub rollback_row :
      Db v schema
      → TenantContext
      → ℕ
      → ℕ
      → String
      → Option (MemoryRow v.Float v.Json)
      → List (MemoryVersionRow v.Float v.Json)
      → Result MemoryError (Db v schema × MemoryRecord v.Float v.Json)
  unfolding revise revised
  rollback_row db context version now audit_id row (target ∷ other ∷ more) = raise multiple_results
  rollback_row db context version now audit_id row [] = raise key_error
  rollback_row db context version now audit_id none (target ∷ []) = raise key_error
  rollback_row db context version now audit_id (some row) (target ∷ []) =
      if not (row.tenant_id == context.tenant_id)
      then raise key_error
      else revise db context (revised row target.content now) target.provenance "memory.rollback"
          (v.object (("to_version", v.number version) ∷ [])) now audit_id

  -- `rollback`
  unfoldable pub rollback :
      Db v schema
      → TenantContext
      → String
      → ℕ
      → ℕ
      → String
      → Db v schema × Result MemoryError (MemoryRecord v.Float v.Json)
  unfolding rollback_row
  rollback db context memory_id version now audit_id = committed db (
      rollback_row db context version now audit_id (schema.memories.find db.memories memory_id)
        (select (is_version v context.tenant_id memory_id version) db.versions))
