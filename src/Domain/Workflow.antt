-- ===== src/Domain/Workflow.antt =====
-- `Workflow` and its `transition_to` (agi_platform/domain.py). The method changes the object only
-- after its two checks, so the new object comes back beside the event or the exception.
pub mod Histories
pub mod Passages
use agi_platform.Prelude.{String, Option, none, some, Result, ok, raise, if◌then◌else◌}
use agi_platform.Domain.States.{WorkflowState, workflow_state_value, workflow_allows}
use agi_platform.Domain.Entity.{
  DomainError, state_error, concurrency_error, workflow_state_transitioned, TenantScopedEntity,
  touch, Event, Caller, Stamp, is_stale,
}

pub record Workflow : Type 0 where
  pub scoped : TenantScopedEntity
  pub open scoped use *
  pub state : WorkflowState
  pub idempotency_key : Option String

moved : WorkflowState → Stamp → Workflow → Workflow
unfolding touch
moved target stamp w = record w {
  scoped = record w.scoped { versioned = touch stamp.touched_at w.versioned };
  state = target;
}

transitioned : WorkflowState → Caller → Stamp → Workflow → Event
transitioned previous caller stamp w = record {
  event_type = workflow_state_transitioned;
  tenant_id = w.tenant_id;
  event_id = stamp.event_id;
  event_version = 1;
  occurred_at = stamp.occurred_at;
  correlation_id = caller.correlation_id;
  request_id = caller.request_id;
  workflow_id = some w.id;
  task_id = none;
  agent_id = none;
  actor_id = caller.actor_id;
  sequence = none;
  payload = record {
    from_state = workflow_state_value previous;
    to_state = workflow_state_value w.state;
    entity_version = w.version;
  };
}

unfoldable pub transition_to :
    Workflow → WorkflowState → Caller → Stamp → Workflow × Result DomainError Event
unfolding moved transitioned is_stale
transition_to w target caller stamp =
    if is_stale caller.expected_version w.version
    then (w, raise concurrency_error)
    else if workflow_allows w.state target
    then (let w' = moved target stamp w in (w', ok (transitioned w.state caller stamp w')))
    else (w, raise state_error)
