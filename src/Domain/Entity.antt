-- ===== src/Domain/Entity.antt =====
-- The base entities of agi_platform/domain.py, its events, and the stale-write and state errors.
-- Clock readings are numbers; what `utc_now()` and `new_id("evt")` give in a call is a `Stamp`.
use agi_platform.Prelude.{ℕ, ◌+◌, String, Option, none, some, Bool, false, eqb, not}
use agi_platform.Domain.States.{LifecycleState}

pub data DomainError : Type 0 where
  state_error concurrency_error : DomainError

pub data EventType : Type 0 where
  workflow_created workflow_state_transitioned workflow_started : EventType
  workflow_paused workflow_resumed workflow_completed workflow_failed : EventType
  task_created task_state_transitioned task_started task_retried : EventType
  task_completed task_failed agent_started agent_completed agent_failed : EventType
  tool_call_requested tool_call_started tool_call_completed tool_call_failed : EventType
  memory_created memory_updated memory_rejected memory_rolled_back : EventType
  evidence_created claim_created decision_created approval_requested : EventType
  approval_granted approval_rejected sandbox_started sandbox_completed : EventType
  sandbox_failed improvement_proposed improvement_approved : EventType
  improvement_rejected improvement_deployed : EventType

pub record VersionedEntity : Type 0 where
  pub id : String
  pub created_at : ℕ
  pub updated_at : ℕ
  pub version : ℕ

unfoldable pub touch : ℕ → VersionedEntity → VersionedEntity
touch now e = record e { updated_at = now; version = e.version + 1 }

pub record TenantScopedEntity : Type 0 where
  pub versioned : VersionedEntity
  pub open versioned use *
  pub tenant_id : String
  pub owner_id : Option String
  pub lifecycle_state : LifecycleState

pub record Payload : Type 0 where
  pub from_state : String
  pub to_state : String
  pub entity_version : ℕ

pub record Event : Type 0 where
  pub event_type : EventType
  pub tenant_id : String
  pub event_id : String
  pub event_version : ℕ
  pub occurred_at : ℕ
  pub correlation_id : Option String
  pub request_id : Option String
  pub workflow_id : Option String
  pub task_id : Option String
  pub agent_id : Option String
  pub actor_id : Option String
  pub sequence : Option ℕ
  pub payload : Payload

-- The keyword arguments of `transition_to`.
pub record Caller : Type 0 where
  pub actor_id : Option String
  pub expected_version : Option ℕ
  pub correlation_id : Option String
  pub request_id : Option String

pub record Stamp : Type 0 where
  pub touched_at : ℕ
  pub occurred_at : ℕ
  pub event_id : String

-- `expected_version is not None and expected_version != self.version`
unfoldable pub is_stale : Option ℕ → ℕ → Bool
is_stale none version = false
is_stale (some expected) version = not (eqb expected version)
