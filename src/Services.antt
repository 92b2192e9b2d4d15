-- ===== src/Services.antt =====
-- `store_memory` and `validate_memory` of `PlatformService` (agi_platform/services.py), the calls that
-- combine the durable memory and the guardian. Telemetry is left out.
pub mod Reviews
use agi_platform.Prelude.{ℕ, String, Bool, Option, some, Dict, Result, ok, raise}
use agi_platform.Security.Permissions.{TenantContext}
use agi_platform.Memory.Values.{Values, MemoryError, MemoryRecord}
use agi_platform.Memory.Tables.{Schema, Db}
use agi_platform.Memory.Layer
use agi_platform.Knowledge.Graph.{KnowledgeGraph}
use agi_platform.Guardian.{Ratios, Review, MemoryGuardian, record_version, validate_candidate}

module _ (v : Values) (schema : Schema v) where
  -- The parts of the service that work for tenants.
  pub record PlatformService : Type 0 where
    pub memory : Db v schema
    pub guardian : MemoryGuardian v
    pub graph : KnowledgeGraph v.Json

  pub record MemoryRequest : Type 0 where
    pub content : String
    pub memory_type : String
    pub metadata : Dict v.Json

  -- `self.memory.store(request.content, request.memory_type, request.metadata, context)`
  unfoldable pub store_request :
      Bool
      → Db v schema
      → MemoryRequest
      → TenantContext
      → ℕ
      → String
      → String
      → Db v schema × Result MemoryError (MemoryRecord v.Float v.Json)
  unfolding Layer.store
  store_request qdrant_available db request context now evidence_id audit_id =
      Layer.store v schema qdrant_available db request.content request.memory_type
        (some request.metadata) (some context) now evidence_id audit_id

  unfoldable pub after_store :
      PlatformService
      → Db v schema × Result MemoryError (MemoryRecord v.Float v.Json)
      → PlatformService × Result MemoryError (MemoryRecord v.Float v.Json)
  unfolding record_version
  after_store s (db, raise e) = (record s { memory = db }, raise e)
  after_store s (db, ok memory) =
      (record s { memory = db; guardian = (record_version v s.guardian memory).0 }, ok memory)

  unfoldable pub store_memory :
      Bool
      → PlatformService
      → MemoryRequest
      → TenantContext
      → ℕ
      → String
      → String
      → PlatformService × Result MemoryError (MemoryRecord v.Float v.Json)
  unfolding store_request after_store
  store_memory qdrant_available s request context now evidence_id audit_id =
      after_store s
        (store_request qdrant_available s.memory request context now evidence_id audit_id)

  module _ (ratios : Ratios) where
    -- The candidate is stored first, and then compared with all memories that there are.
    unfoldable pub after_candidate :
        PlatformService
        → Db v schema × Result MemoryError (MemoryRecord v.Float v.Json)
        → PlatformService × Result MemoryError Review
    unfolding Layer.values validate_candidate
    after_candidate s (db, raise e) = (record s { memory = db }, raise e)
    after_candidate s (db, ok candidate) =
        let (guardian, review) =
          validate_candidate v ratios s.guardian candidate (Layer.values v schema db) in
        (record s { memory = db; guardian = guardian }, ok review)

    unfoldable pub validate_memory :
        Bool
        → PlatformService
        → MemoryRequest
        → TenantContext
        → ℕ
        → String
        → String
        → PlatformService × Result MemoryError Review
    unfolding store_request after_candidate
    validate_memory qdrant_available s request context now evidence_id audit_id =
        after_candidate s
          (store_request qdrant_available s.memory request context now evidence_id audit_id)
