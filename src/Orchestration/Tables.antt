-- ===== src/Orchestration/Tables.antt =====
-- The rows of the workflow tables, of those columns that the platform reads or writes
-- (agi_platform/database.py).
use agi_platform.Database.{Table}
use agi_platform.Orchestration.Documents.{Document}
use agi_platform.Prelude.{ℕ, String, List, [], ◌∷◌, Option}

pub record WorkflowRow : Type 0 where
  pub id : String
  pub tenant_id : String
  pub task : String
  pub status : String
  pub idempotency_key : Option String
  pub version : ℕ
  pub created_at : ℕ
  pub updated_at : ℕ

pub record WorkflowTaskRow : Type 0 where
  pub id : String
  pub tenant_id : String
  pub workflow_id : String
  pub agent : String
  pub action : String
  pub status : String
  pub lease_owner : Option String
  pub lease_expires_at : Option ℕ
  pub attempts : ℕ
  pub max_attempts : ℕ
  pub idempotency_key : String
  pub created_at : ℕ
  pub updated_at : ℕ

abbrev pub task_key : WorkflowTaskRow → String
task_key r = r.id

-- The check constraint of both status columns.
abbrev pub statuses : List String
statuses =
    "PENDING" ∷ "RUNNING" ∷ "WAITING" ∷ "SUCCEEDED" ∷ "FAILED" ∷ "CANCELLED" ∷ "TIMED_OUT"
    ∷ "RECOVERING" ∷ []

pub record WorkflowEventRow : Type 0 where
  pub id : String
  pub tenant_id : String
  pub workflow_id : String
  pub event_type : String
  pub sequence : ℕ
  pub payload_status : String
  pub created_at : ℕ

pub record WorkflowCheckpointRow : Type 0 where
  pub id : String
  pub tenant_id : String
  pub workflow_id : String
  pub state : Document
  pub version : ℕ
  pub created_at : ℕ

-- The four tables of workflows.
pub record Schema : Type 1 where
  pub workflows : Table WorkflowRow (λ r. r.id)
  pub tasks : Table WorkflowTaskRow task_key
  pub events : Table WorkflowEventRow (λ r. r.id)
  pub checkpoints : Table WorkflowCheckpointRow (λ r. r.id)

-- Their rows.
pub record Db (schema : Schema) : Type 0 where
  pub workflows : schema.workflows.Rows
  pub tasks : schema.tasks.Rows
  pub events : schema.events.Rows
  pub checkpoints : schema.checkpoints.Rows
