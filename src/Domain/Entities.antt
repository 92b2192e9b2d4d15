-- ===== src/Domain/Entities.antt =====
-- The entities of agi_platform/domain.py that have no operations of their own. Dates are numbers, as
-- all clock readings; `Float` and `Json` stand for Python's floating-point numbers and for the values
-- of a dictionary of any values.
use agi_platform.Prelude.{ℕ, String, List, Option, Bool, Dict}
use agi_platform.Domain.States.{LifecycleState, WorkflowState, TaskState}
use agi_platform.Domain.Entity.{VersionedEntity, TenantScopedEntity}

pub record User : Type 0 where
  pub scoped : TenantScopedEntity
  pub email : String

pub record Tenant : Type 0 where
  pub versioned : VersionedEntity
  pub name : String
  pub lifecycle_state : LifecycleState

pub record AgentRole : Type 0 where
  pub scoped : TenantScopedEntity
  pub name : String
  pub permissions : List String

pub record AgentCapability : Type 0 where
  pub scoped : TenantScopedEntity
  pub name : String
  pub risk_level : String

pub record ToolPermission : Type 0 where
  pub scoped : TenantScopedEntity
  pub tool_id : String
  pub capability : String
  pub action : String
  pub risk_level : String

pub record WorkflowRun : Type 0 where
  pub scoped : TenantScopedEntity
  pub workflow_id : String
  pub current_state : WorkflowState
  pub checkpoint_id : Option String
  pub event_sequence : ℕ
  pub idempotency_key : Option String

pub record TaskRun : Type 0 where
  pub scoped : TenantScopedEntity
  pub task_id : String
  pub current_state : TaskState
  pub attempt : ℕ

pub record Decision : Type 0 where
  pub scoped : TenantScopedEntity
  pub status : String
  pub risk_level : String
  pub evidence_ids : List String

pub record Approval : Type 0 where
  pub scoped : TenantScopedEntity
  pub decision_id : String
  pub approver_id : String
  pub scope : String
  pub expires_at : Option ℕ

pub record MemoryVersion : Type 0 where
  pub scoped : TenantScopedEntity
  pub memory_id : String
  pub version_number : ℕ
  pub content_hash : String

pub record Artifact : Type 0 where
  pub scoped : TenantScopedEntity
  pub artifact_type : String
  pub content_hash : String
  pub size_bytes : ℕ
  pub source_workflow_id : Option String

pub record Execution : Type 0 where
  pub scoped : TenantScopedEntity
  pub tool_id : String
  pub workflow_id : Option String
  pub task_id : Option String
  pub status : String

pub record ImprovementProposal : Type 0 where
  pub scoped : TenantScopedEntity
  pub title : String
  pub risk_level : String
  pub status : String
  pub reversible : Bool

module _ (Float Json : Type 0) where
  pub record Agent : Type 0 where
    pub scoped : TenantScopedEntity
    pub role_id : String
    pub capabilities : List String
    pub allowed_tools : List String
    pub allowed_resources : List String
    pub risk_level : String
    pub budget : Dict Float
    pub timeout_seconds : ℕ
    pub max_iterations : ℕ
    pub max_tool_calls : ℕ

  pub record Tool : Type 0 where
    pub scoped : TenantScopedEntity
    pub name : String
    pub description : String
    pub input_schema : Dict Json
    pub output_schema : Dict Json
    pub required_capabilities : List String
    pub timeout_seconds : ℕ
    pub network_access : String
    pub filesystem_access : String

  pub record Checkpoint : Type 0 where
    pub scoped : TenantScopedEntity
    pub workflow_run_id : String
    pub event_sequence : ℕ
    pub state : Dict Json

  pub record Evidence : Type 0 where
    pub scoped : TenantScopedEntity
    pub source : String
    pub source_type : String
    pub content_hash : String
    pub trust_score : Float

  pub record Claim : Type 0 where
    pub scoped : TenantScopedEntity
    pub evidence_ids : List String
    pub confidence : Float
    pub text : String

  pub record Memory : Type 0 where
    pub scoped : TenantScopedEntity
    pub memory_type : String
    pub content_hash : String
    pub source : String
    pub source_type : String
    pub confidence : Float
    pub evidence_ids : List String
    pub supersedes : Option String

  pub record Entity : Type 0 where
    pub scoped : TenantScopedEntity
    pub labels : List String
    pub properties : Dict Json

  pub record Relationship : Type 0 where
    pub scoped : TenantScopedEntity
    pub source_entity_id : String
    pub target_entity_id : String
    pub relationship_type : String
    pub confidence : Float
    pub evidence_ids : List String

  pub record Policy : Type 0 where
    pub scoped : TenantScopedEntity
    pub name : String
    pub rules : Dict Json
