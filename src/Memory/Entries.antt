-- ===== src/Memory/Entries.antt =====
-- What `DurableMemoryStore.store` computes of its arguments, and `_to_record`
-- (agi_platform/memory/core.py).
use agi_platform.Prelude.{
  ℕ, String, ◌+++◌, ◌==◌, [], ◌∷◌, Bool, not, Option, none, some, or_else, Dict, get, put, Result,
  or_raise, ok, if◌then◌else◌,
}
use agi_platform.Security.Permissions.{TenantContext}
use agi_platform.Database.Rows.{MemoryRow, MemoryVersionRow}
use agi_platform.Memory.Values.{Values, MemoryError, value_error, MemoryRecord}

module _ (v : Values) where
  -- `_to_record`
  unfoldable pub to_record : MemoryRow v.Float v.Json → MemoryRecord v.Float v.Json
  to_record row = record {
    id = row.id;
    tenant_id = row.tenant_id;
    namespace = row.namespace;
    content = row.content;
    memory_type = or_else (get row.metadata_json "memory_type") (v.text "semantic");
    metadata = row.metadata_json;
    embedding_id = row.embedding_id;
    provenance = row.provenance;
    source = row.source;
    confidence = row.confidence;
    version = row.version;
    status = row.status;
    retention = row.retention;
    created_at = row.created_at;
    updated_at = row.updated_at;
    archived = not (row.status == "ACTIVE");
  }

  -- `str(metadata.get(key, default))`, for a default that is text
  unfoldable pub text_at : Dict v.Json → String → String → String
  text_at metadata key default = elim (get metadata key) [ none ↦ default | some j ↦ v.str j ]

  -- `float(metadata.get("confidence", 1.0))`
  unfoldable pub confidence_of : Dict v.Json → Result MemoryError v.Float
  confidence_of metadata = elim (get metadata "confidence") [
    | none ↦ ok v.one
    | some j ↦ or_raise value_error (v.float j)
  ]

  unfoldable pub provenance_of : Dict v.Json → v.Json
  provenance_of metadata =
      or_else (get metadata "provenance")
        (v.object (("source", or_else (get metadata "source") (v.text "api")) ∷ []))

  unfoldable pub digest_of : String → Dict v.Json → String → String → String
  unfolding text_at
  digest_of tenant metadata memory_type content = v.hash (
      tenant
      +++ ":"
      +++ text_at metadata "namespace" "default"
      +++ ":"
      +++ memory_type
      +++ ":"
      +++ content)

  -- The entry of `memory_versions` that records a row as it stands.
  unfoldable pub version_of : MemoryRow v.Float v.Json → ℕ → MemoryVersionRow v.Float v.Json
  version_of row now = record {
    tenant_id = row.tenant_id;
    memory_id = row.id;
    version = row.version;
    content = row.content;
    provenance = row.provenance;
    created_at = now;
  }

  unfoldable pub embedding_of : Bool → String → Option String
  embedding_of qdrant_available digest =
      if qdrant_available then some ("qdrant:" +++ digest) else none

  module _ (context : TenantContext) (content memory_type : String) (metadata : Dict v.Json)
      (qdrant_available : Bool) (digest : String) (now : ℕ) where
    -- The row of a memory that is stored for the first time.
    unfoldable pub new_row : v.Float → MemoryRow v.Float v.Json
    unfolding text_at provenance_of embedding_of
    new_row confidence = record {
      id = digest;
      tenant_id = context.tenant_id;
      namespace = text_at metadata "namespace" "default";
      content = content;
      embedding_id = embedding_of qdrant_available digest;
      provenance = provenance_of metadata;
      source = text_at metadata "source" "api";
      confidence = confidence;
      status = "ACTIVE";
      retention = or_else (get metadata "retention") (v.object []);
      metadata_json = put metadata "memory_type" (v.text memory_type);
      version = 1;
      created_at = now;
      updated_at = now;
    }
