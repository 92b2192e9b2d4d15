-- ===== src/Memory/Tables.antt =====
-- The tables of the memory, `ensure_tenant`, and the constraints that an insertion meets
-- (agi_platform/database.py). Versions are a list under their uniqueness constraint; foreign keys hold
-- throughout, since every call ensures or reads the rows that it refers to.
use agi_platform.Prelude.{
  ℕ, String, ◌==◌, List, [], ◌∷◌, ◌++◌, Bool, ◌&&◌, Option, none, some, any, or_else, eqb, Result,
  ok, raise, if◌then◌else◌,
}
use agi_platform.Database.{Table}
use agi_platform.Database.Rows.{
  TenantRow, MemoryRow, MemoryVersionRow, MemoryEvidenceRow, AuditEventRow,
}
use agi_platform.Memory.Values.{Values, MemoryError, integrity_error}

pub record Schema (v : Values) : Type 1 where
  pub tenants : Table TenantRow (λ r. r.id)
  pub memories : Table (MemoryRow v.Float v.Json) (λ r. r.id)
  pub evidence : Table (MemoryEvidenceRow v.Float v.Json) (λ r. r.id)
  pub audit : Table (AuditEventRow v.Float v.Json) (λ r. r.id)

pub record Db (v : Values) (schema : Schema v) : Type 0 where
  pub tenants : schema.tenants.Rows
  pub memories : schema.memories.Rows
  pub versions : List (MemoryVersionRow v.Float v.Json)
  pub evidence : schema.evidence.Rows
  pub audit : schema.audit.Rows

module _ (v : Values) where
  unfoldable pub is_version : String → String → ℕ → MemoryVersionRow v.Float v.Json → Bool
  is_version tenant id version r =
      r.tenant_id == tenant && r.memory_id == id && eqb r.version version

  -- A version is added unless the tenant has one of that number for the memory.
  unfoldable pub add_version :
      List (MemoryVersionRow v.Float v.Json)
      → MemoryVersionRow v.Float v.Json
      → Option (List (MemoryVersionRow v.Float v.Json))
  add_version versions r =
      if any (is_version r.tenant_id r.memory_id r.version) versions
      then none
      else some (versions ++ (r ∷ []))

  module _ (schema : Schema v) where
    -- `Database.ensure_tenant`: the tenant's row is added if there is none; names are unique.
    unfoldable pub ensure_tenant :
        Db v schema → String → Option String → ℕ → Result MemoryError (Db v schema)
    ensure_tenant db tenant name now = elim (schema.tenants.find db.tenants tenant) [
      | some r ↦ ok db
      | none ↦
          if any (λ r. r.name == or_else name tenant) (schema.tenants.rows db.tenants)
          then raise integrity_error
          else ok (record db {
            tenants = schema.tenants.put db.tenants (record {
              id = tenant;
              name = or_else name tenant;
              status = "ACTIVE";
              version = 1;
              created_at = now;
              updated_at = now;
            });
          })
    ]
