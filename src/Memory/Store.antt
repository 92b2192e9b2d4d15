-- ===== src/Memory/Store.antt =====
-- `DurableMemoryStore.store` (agi_platform/memory/core.py), a transaction, which leaves the database as it
-- was if it raises. `now` is what `now_ts()` gives in the call, and `evidence_id` and `audit_id` are what
-- `new_id` gives.
pub mod Audited
pub mod Taken
use agi_platform.Prelude.{
  ℕ, String, [], ◌∷◌, Bool, Option, none, some, or_else, Dict, Result, ◌>>=◌, or_raise, ok, raise,
  if◌then◌else◌,
}
use agi_platform.Security.Permissions.{TenantContext}
use agi_platform.Database.Rows.{MemoryRow}
use agi_platform.Memory.Values.{Values, MemoryError, integrity_error, MemoryRecord}
use agi_platform.Memory.Tables.{Schema, Db, add_version, ensure_tenant}
use agi_platform.Memory.Entries.{to_record, version_of, confidence_of, digest_of, new_row}

-- The session around a transaction: it commits, or it rolls back and raises.
abbrev pub committed {ℓ κ} :
    {D : Type ℓ} {A : Type κ} → D → Result MemoryError (D × A) → D × Result MemoryError A
committed db (ok (db', a)) = (db', ok a)
committed db (raise e) = (db, raise e)

module _ (v : Values) (schema : Schema v) where
  unfoldable pub write_audit :
      Db v schema
      → TenantContext
      → String
      → String
      → v.Json
      → ℕ
      → String
      → Result MemoryError (Db v schema)
  write_audit db context action target metadata now audit_id = do
    audit ← or_raise integrity_error (
        schema.audit.insert db.audit (record {
          id = audit_id;
          tenant_id = context.tenant_id;
          actor = context.identity.subject;
          action = action;
          target = target;
          result = "succeeded";
          metadata_json = metadata;
          created_at = now;
        }))
    ok (record db { audit = audit })

  module _ (context : TenantContext) (content memory_type : String) (metadata : Dict v.Json)
      (qdrant_available : Bool) (digest : String) (now : ℕ) where
    -- The row under the digest: the one that is there, whatever its tenant, or a new one, with its
    -- first version and its evidence.
    unfoldable pub row_of_digest :
        Db v schema
        → String
        → Option (MemoryRow v.Float v.Json)
        → Result MemoryError (Db v schema × MemoryRow v.Float v.Json)
    unfolding confidence_of new_row version_of
    row_of_digest db evidence_id (some row) = ok (db, row)
    row_of_digest db evidence_id none = do
      confidence ← confidence_of v metadata
      let row =
          new_row v context content memory_type metadata qdrant_available digest now confidence
      memories ←
          if v.is_confidence confidence
          then or_raise integrity_error (schema.memories.insert db.memories row)
          else raise integrity_error
      versions ← or_raise integrity_error (add_version v db.versions (version_of v row now))
      evidence ← or_raise integrity_error (
          schema.evidence.insert db.evidence (record {
            id = evidence_id;
            tenant_id = context.tenant_id;
            memory_id = digest;
            source = row.source;
            evidence = row.provenance;
            created_at = now;
          }))
      ok (record db { memories = memories; versions = versions; evidence = evidence }, row)

    -- The transaction of `store`, after `ensure_tenant`.
    unfoldable pub store_transaction :
        Db v schema
        → String
        → String
        → Result MemoryError (Db v schema × MemoryRecord v.Float v.Json)
    unfolding row_of_digest write_audit
    store_transaction db evidence_id audit_id = do
      (db', row) ← row_of_digest db evidence_id (schema.memories.find db.memories digest)
      db'' ←
          write_audit db' context "memory.write" digest
            (v.object (("qdrant_available", v.truth qdrant_available) ∷ [])) now audit_id
      ok (db'', to_record v row)

  -- `store`
  unfoldable pub store :
      Bool
      → Db v schema
      → TenantContext
      → String
      → String
      → Option (Dict v.Json)
      → ℕ
      → String
      → String
      → Db v schema × Result MemoryError (MemoryRecord v.Float v.Json)
  unfolding digest_of store_transaction
  store qdrant_available db context content memory_type metadata now evidence_id audit_id =
      elim (ensure_tenant v schema db context.tenant_id none now) [
        | raise e ↦ (db, raise e)
        | ok db ↦
            let metadata = or_else metadata [] in
            let digest = digest_of v context.tenant_id metadata memory_type content in
            committed db (
              store_transaction context content memory_type metadata qdrant_available digest now db
                evidence_id audit_id)
      ]
