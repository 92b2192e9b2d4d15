-- ===== src/Database/Rows.antt =====
-- The rows of the tables of tenants, memories and audit events, of those columns that the platform
-- reads or writes (agi_platform/database.py). `Float` and `Json` stand for floating-point numbers and
-- for JSON values.
use agi_platform.Prelude.{ℕ, String, Option, Dict}

pub record TenantRow : Type 0 where
  pub id : String
  pub name : String
  pub status : String
  pub version : ℕ
  pub created_at : ℕ
  pub updated_at : ℕ

module _ (Float Json : Type 0) where
  pub record MemoryRow : Type 0 where
    pub id : String
    pub tenant_id : String
    pub namespace : String
    pub content : String
    pub embedding_id : Option String
    pub provenance : Json
    pub source : String
    pub confidence : Float
    pub status : String
    pub retention : Json
    pub metadata_json : Dict Json
    pub version : ℕ
    pub created_at : ℕ
    pub updated_at : ℕ

  pub record MemoryVersionRow : Type 0 where
    pub tenant_id : String
    pub memory_id : String
    pub version : ℕ
    pub content : String
    pub provenance : Json
    pub created_at : ℕ

  pub record MemoryEvidenceRow : Type 0 where
    pub id : String
    pub tenant_id : String
    pub memory_id : String
    pub source : String
    pub evidence : Json
    pub created_at : ℕ

  pub record AuditEventRow : Type 0 where
    pub id : String
    pub tenant_id : String
    pub actor : String
    pub action : String
    pub target : String
    pub result : String
    pub metadata_json : Json
    pub created_at : ℕ
