-- ===== src/Memory/History.antt =====
-- The history of a memory under any calls of `store`, `update` and `rollback`
-- (agi_platform/memory/core.py).
pub mod Versions
pub mod Tenants
pub mod Restoring
use agi_platform.Prelude.{
  ℕ, ◌+◌, ◌≤◌, ◌<◌, String, ◌==◌, List, [], ◌∷◌, ◌++◌, Bool, true, false, Option, none, some, eqb,
  Dict, if◌then◌else◌, ◌≡◌, ◌≢◌, refl, sym, ap, subst, ◌∙◌, ◌⊎◌, inl, inr, arith, eq_iff,
  Bool-cases,
}
use agi_platform.Security.Permissions.{TenantContext}
use agi_platform.Database.{select}
use agi_platform.Database.Select.{select-append}
use agi_platform.Database.Rows.{MemoryRow, MemoryVersionRow}
use agi_platform.Memory.Values.{Values}
use agi_platform.Memory.Tables.{Schema, Db, is_version}
use agi_platform.Memory.Store.{store}
use agi_platform.Memory.Revision.{update, rollback}
use agi_platform.Memory.Changes.{
  Describes, Follows, Written, Change, kept, written, update-Change, rollback-Change,
}
use agi_platform.Memory.Changes.Storing.{store-Change}

module _ (v : Values) where
  pub data Op : Type 0 where
    stores :
        Bool → TenantContext → String → String → Option (Dict v.Json) → ℕ → String → String → Op
    updates : TenantContext → String → String → ℕ → ℕ → String → Op
    rolls_back : TenantContext → String → ℕ → ℕ → String → Op

  abbrev pub caller : Op → String
  caller (stores _ context _ _ _ _ _ _) = context.tenant_id
  caller (updates context _ _ _ _ _) = context.tenant_id
  caller (rolls_back context _ _ _ _) = context.tenant_id

  module _ (schema : Schema v) where
    unfoldable pub step : Db v schema → Op → Db v schema
    step db (stores qdrant context content memory_type metadata now evidence_id audit_id) =
        (store v schema qdrant db context content memory_type metadata now evidence_id audit_id).0
    step db (updates context id content expected now audit_id) =
        (update v schema db context id content expected now audit_id).0
    step db (rolls_back context id version now audit_id) =
        (rollback v schema db context id version now audit_id).0

    unfoldable pub run : Db v schema → List Op → Db v schema
    run db [] = db
    run db (op ∷ ops) = run (step db op) ops

    pub step-Change : (db : Db v schema) (op : Op) → Change v schema (caller op) db (step db op)
    unfolding step
    step-Change db (stores qdrant context content memory_type metadata now evidence_id audit_id) =
        store-Change v schema qdrant db context content memory_type metadata now evidence_id
          audit_id
    step-Change db (updates context id content expected now audit_id) =
        update-Change v schema db context id content expected now audit_id
    step-Change db (rolls_back context id version now audit_id) =
        rollback-Change v schema db context id version now audit_id

    -- Memories and versions record each other: an id without a memory has no versions; a memory has
    -- one entry for each number from 1 to its version and none above, and the last has its content.
    pub record Recorded (db : Db v schema) : Type 0 where
      pub absent :
          (id : String)
          → schema.memories.find db.memories id ≡ none
          → (tenant : String) (n : ℕ) → select (is_version v tenant id n) db.versions ≡ []
      pub positive :
          (id : String) (r : MemoryRow v.Float v.Json)
          → schema.memories.find db.memories id ≡ some r
          → 1 ≤ r.version
      pub above :
          (id : String) (r : MemoryRow v.Float v.Json)
          → schema.memories.find db.memories id ≡ some r
          → (n : ℕ) → r.version < n
          → select (is_version v r.tenant_id id n) db.versions ≡ []
      pub recorded :
          (id : String) (r : MemoryRow v.Float v.Json)
          → schema.memories.find db.memories id ≡ some r
          → (n : ℕ) → 1 ≤ n
          → n ≤ r.version
          → (x : MemoryVersionRow v.Float v.Json) × (select
                (is_version v r.tenant_id id n)
                db.versions
              ≡ x ∷ [])
      pub latest :
          (id : String) (r : MemoryRow v.Float v.Json) (x : MemoryVersionRow v.Float v.Json)
          → schema.memories.find db.memories id ≡ some r
          → select (is_version v r.tenant_id id r.version) db.versions ≡ x ∷ []
          → x.content ≡ r.content
