-- ===== src/Domain/Task.antt =====
-- `Task` and its `transition_to` (agi_platform/domain.py), a twin of that of `Workflow`.
pub mod Histories
pub mod Passages
use agi_platform.Prelude.{String, Option, none, some, Result, ok, raise, if◌then◌else◌}
use agi_platform.Domain.States.{TaskState, task_state_value, task_allows}
use agi_platform.Domain.Entity.{
  DomainError, state_error, concurrency_error, task_state_transitioned, TenantScopedEntity, touch,
  Event, Caller, Stamp, is_stale,
}

pub record Task : Type 0 where
  pub scoped : TenantScopedEntity
  pub open scoped use *
  pub workflow_id : String
  pub state : TaskState
  pub idempotency_key : Option String

moved : TaskState → Stamp → Task → Task
unfolding touch
moved target stamp t = record t {
  scoped = record t.scoped { versioned = touch stamp.touched_at t.versioned };
  state = target;
}

transitioned : TaskState → Caller → Stamp → Task → Event
transitioned previous caller stamp t = record {
  event_type = task_state_transitioned;
  tenant_id = t.tenant_id;
  event_id = stamp.event_id;
  event_version = 1;
  occurred_at = stamp.occurred_at;
  correlation_id = caller.correlation_id;
  request_id = caller.request_id;
  workflow_id = some t.workflow_id;
  task_id = some t.id;
  agent_id = none;
  actor_id = caller.actor_id;
  sequence = none;
  payload = record {
    from_state = task_state_value previous;
    to_state = task_state_value t.state;
    entity_version = t.version;
  };
}

unfoldable pub transition_to : Task → TaskState → Caller → Stamp → Task × Result DomainError Event
unfolding moved transitioned is_stale
transition_to t target caller stamp =
    if is_stale caller.expected_version t.version
    then (t, raise concurrency_error)
    else if task_allows t.state target
    then (let t' = moved target stamp t in (t', ok (transitioned t.state caller stamp t')))
    else (t, raise state_error)
