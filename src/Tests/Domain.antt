-- ===== src/Tests/Domain.antt =====
-- The theorems on workflows and tasks at concrete objects (agi_platform/domain.py).
use agi_platform.Prelude.{ℕ, ◌+◌, Option, none, some, List, [], ◌∷◌, ◌≡◌, refl, length}
use agi_platform.Domain.States.{
  LifecycleState, WorkflowState, TaskState, planned, pending, ready, workflow_allows, task_allows,
}
use agi_platform.Domain.Entity.{TenantScopedEntity, Caller, Stamp, is_stale}
use agi_platform.Domain.Workflow as WM
use agi_platform.Domain.Workflow.{Workflow}
use agi_platform.Domain.Task as TM
use agi_platform.Domain.Task.{Task}
use agi_platform.Domain.Machine.{Request, run}
use agi_platform.Domain.Machine.History.{replay}
use agi_platform.Domain.Workflow.Histories.{workflow_run, workflow_view, replay-workflow_run}
use agi_platform.Domain.Task.Histories.{task_run}

abbrev entity : TenantScopedEntity
entity = record {
  versioned = record { id = "wf-1"; created_at = 10; updated_at = 10; version = 1 };
  tenant_id = "acme";
  owner_id = some "ada";
  lifecycle_state = LifecycleState.active;
}

abbrev stamp : Stamp
stamp = record { touched_at = 20; occurred_at = 21; event_id = "evt-1" }

abbrev caller : Option ℕ → Caller
caller expected = record {
  actor_id = some "ada";
  expected_version = expected;
  correlation_id = none;
  request_id = none;
}

abbrev ask : {S : Type 0} → S → Option ℕ → Request S
ask target expected = record { target = target; caller = caller expected; stamp = stamp }

abbrev workflow : WorkflowState → Workflow
workflow state = record { scoped = entity; state = state; idempotency_key = none }

abbrev task : TaskState → Task
task state = record { scoped = entity; workflow_id = "wf-1"; state = state; idempotency_key = none }

-- One stale call, one that is not allowed, and three that succeed.
abbrev workflow_calls : List (Request WorkflowState)
workflow_calls =
    ask planned none
    ∷ ask WorkflowState.running (some 1)
    ∷ ask WorkflowState.completed (some 2)
    ∷ ask WorkflowState.running (some 2)
    ∷ ask WorkflowState.completed (some 3)
    ∷ []

abbrev task_calls : List (Request TaskState)
task_calls =
    ask ready none
    ∷ ask TaskState.running (some 1)
    ∷ ask TaskState.completed (some 2)
    ∷ ask TaskState.running (some 2)
    ∷ ask TaskState.completed (some 3)
    ∷ []

abbrev new_workflow : Workflow
new_workflow = workflow WorkflowState.created

replay-workflow_run_example :
    (replay (workflow_view new_workflow) (workflow_run new_workflow workflow_calls).1
      ≡ some (workflow_view (workflow_run new_workflow workflow_calls).0))
    × ((workflow_run new_workflow workflow_calls).0.version
        ≡ 1 + length (workflow_run new_workflow workflow_calls).1)
replay-workflow_run_example = replay-workflow_run new_workflow workflow_calls

-- Two callers that read the version 1.
abbrev workflow_rivals : List (Request WorkflowState)
workflow_rivals = ask planned (some 1) ∷ ask WorkflowState.cancelled (some 1) ∷ []

workflow_completed : (workflow_run new_workflow workflow_calls).0.state ≡ WorkflowState.completed
unfolding run WM.transition_to is_stale workflow_allows
workflow_completed = refl

abbrev new_task : Task
new_task = task pending

-- Two callers that read the version 1.
abbrev task_rivals : List (Request TaskState)
task_rivals = ask ready (some 1) ∷ ask TaskState.cancelled (some 1) ∷ []

task_completed : (task_run new_task task_calls).0.state ≡ TaskState.completed
unfolding run TM.transition_to is_stale task_allows
task_completed = refl
