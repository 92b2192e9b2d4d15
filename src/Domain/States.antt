-- ===== src/Domain/States.antt =====
-- The states of workflows and tasks and the tables of their transitions (agi_platform/domain.py).
-- The source's enumerations are `StrEnum`s: a member is compared, also by `in`, as its text.
use agi_platform.Prelude.{Bool, List, [], ◌∷◌, String, ◌==◌, any}

pub data LifecycleState : Type 0 where
  created active archived deleted : LifecycleState

pub data WorkflowState : Type 0 where
  created planned running waiting paused failed recovering completed cancelled : WorkflowState

pub data TaskState : Type 0 where
  pending ready running waiting_tool waiting_approval : TaskState
  retrying failed completed cancelled : TaskState

-- `WorkflowState(…).value`
unfoldable pub workflow_state_value : WorkflowState → String
workflow_state_value WorkflowState.created = "CREATED"
workflow_state_value planned = "PLANNED"
workflow_state_value WorkflowState.running = "RUNNING"
workflow_state_value waiting = "WAITING"
workflow_state_value paused = "PAUSED"
workflow_state_value WorkflowState.failed = "FAILED"
workflow_state_value recovering = "RECOVERING"
workflow_state_value WorkflowState.completed = "COMPLETED"
workflow_state_value WorkflowState.cancelled = "CANCELLED"

-- `TaskState(…).value`
unfoldable pub task_state_value : TaskState → String
task_state_value pending = "PENDING"
task_state_value ready = "READY"
task_state_value TaskState.running = "RUNNING"
task_state_value waiting_tool = "WAITING_TOOL"
task_state_value waiting_approval = "WAITING_APPROVAL"
task_state_value retrying = "RETRYING"
task_state_value TaskState.failed = "FAILED"
task_state_value TaskState.completed = "COMPLETED"
task_state_value TaskState.cancelled = "CANCELLED"

unfoldable pub workflow_transitions : WorkflowState → List WorkflowState
workflow_transitions WorkflowState.created = planned ∷ WorkflowState.cancelled ∷ []
workflow_transitions planned = WorkflowState.running ∷ paused ∷ WorkflowState.cancelled ∷ []
workflow_transitions WorkflowState.running =
    waiting ∷ paused ∷ WorkflowState.failed ∷ WorkflowState.completed ∷ WorkflowState.cancelled ∷ []
workflow_transitions waiting =
    WorkflowState.running ∷ paused ∷ WorkflowState.failed ∷ WorkflowState.cancelled ∷ []
workflow_transitions paused = WorkflowState.running ∷ WorkflowState.cancelled ∷ []
workflow_transitions WorkflowState.failed = recovering ∷ WorkflowState.cancelled ∷ []
workflow_transitions recovering =
    WorkflowState.running ∷ WorkflowState.failed ∷ WorkflowState.cancelled ∷ []
workflow_transitions WorkflowState.completed = []
workflow_transitions WorkflowState.cancelled = []

unfoldable pub task_transitions : TaskState → List TaskState
task_transitions pending = ready ∷ TaskState.cancelled ∷ []
task_transitions ready = TaskState.running ∷ waiting_approval ∷ TaskState.cancelled ∷ []
task_transitions TaskState.running =
    waiting_tool ∷ waiting_approval ∷ retrying ∷ TaskState.failed ∷ TaskState.completed
    ∷ TaskState.cancelled ∷ []
task_transitions waiting_tool =
    TaskState.running ∷ retrying ∷ TaskState.failed ∷ TaskState.cancelled ∷ []
task_transitions waiting_approval = TaskState.running ∷ TaskState.failed ∷ TaskState.cancelled ∷ []
task_transitions retrying = TaskState.running ∷ TaskState.failed ∷ TaskState.cancelled ∷ []
task_transitions TaskState.failed = retrying ∷ TaskState.cancelled ∷ []
task_transitions TaskState.completed = []
task_transitions TaskState.cancelled = []

-- `target in WORKFLOW_TRANSITIONS[self.state]`
unfoldable pub workflow_allows : WorkflowState → WorkflowState → Bool
unfolding workflow_transitions workflow_state_value
workflow_allows state target =
    any (λ s. workflow_state_value s == workflow_state_value target) (workflow_transitions state)

-- `target in TASK_TRANSITIONS[self.state]`
unfoldable pub task_allows : TaskState → TaskState → Bool
unfolding task_transitions task_state_value
task_allows state target =
    any (λ s. task_state_value s == task_state_value target) (task_transitions state)
