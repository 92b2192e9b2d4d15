-- ===== src/Orchestration/Store.antt =====
-- `upsert_workflow`, `get` and `list` of `WorkflowStateStore` (agi_platform/orchestration.py). A
-- transaction that raises leaves the database as it was. `upper` stands for `str.upper`; `now` is what
-- `now_ts()` gives in the call, and `event_id` what `new_id("wfe")` gives.
pub mod Reads
pub mod Failures
use agi_platform.Prelude.{
  ℕ, ◌+◌, max, String, ◌+++◌, ◌==◌, List, [], ◌∷◌, map, Bool, true, false, not, ◌&&◌, Option, none,
  some, or_else, Result, ◌>>=◌, ok, raise, Dict, get, contains, if◌then◌else◌,
}
use agi_platform.Database.{select}
use agi_platform.Orchestration.Documents.{Step, Document}
use agi_platform.Orchestration.Tables.{
  WorkflowRow, WorkflowTaskRow, WorkflowEventRow, WorkflowCheckpointRow, statuses, Schema, Db,
}

pub data StoreError : Type 0 where
  integrity_error key_error : StoreError

abbrev status_names : Dict String
status_names =
    ("planned", "PENDING")
    ∷ ("queued", "PENDING")
    ∷ ("running", "RUNNING")
    ∷ ("completed", "SUCCEEDED")
    ∷ ("recovered", "RECOVERING")
    ∷ []

-- `_status`
unfoldable pub status_of : (String → String) → String → String
status_of upper value = or_else (get status_names value) (upper value)

task_row : (String → String) → String → ℕ → String → Step → WorkflowTaskRow
unfolding status_of
task_row upper tenant now checkpoint step = record {
  id = checkpoint +++ ":" +++ step.id;
  tenant_id = tenant;
  workflow_id = checkpoint;
  agent = step.agent;
  action = step.action;
  status = status_of upper step.status;
  lease_owner = none;
  lease_expires_at = none;
  attempts = 0;
  max_attempts = 3;
  idempotency_key = checkpoint +++ ":" +++ step.id;
  created_at = now;
  updated_at = now;
}

-- `scalar() or 0`, under `order_by(sequence.desc())`
unfoldable pub last_sequence : List WorkflowEventRow → ℕ
last_sequence [] = 0
last_sequence (e ∷ es) = max e.sequence (last_sequence es)

unfoldable pub is_event_of : String → String → WorkflowEventRow → Bool
is_event_of tenant checkpoint e = e.tenant_id == tenant && e.workflow_id == checkpoint

-- A merged row keeps the creation time of the row that it replaces.
abbrev created : ℕ → Option WorkflowCheckpointRow → ℕ
created now none = now
created now (some r) = r.created_at

abbrev or_integrity {ℓ} : {A : Type ℓ} → Option A → Result StoreError A
or_integrity none = raise integrity_error
or_integrity (some a) = ok a

module _ (schema : Schema) (upper : String → String) (tenant : String) where
  -- The row of the workflow: a new one, or the one that is there, whatever its tenant.
  write_workflow :
      schema.workflows.Rows
      → Document
      → ℕ
      → Option WorkflowRow
      → Result StoreError (schema.workflows.Rows × ℕ)
  unfolding status_of
  write_workflow t doc now none =
      if contains (status_of upper doc.status) statuses
      then (do
        t' ← or_integrity (
            schema.workflows.insert t (record {
              id = doc.checkpoint;
              tenant_id = tenant;
              task = doc.task;
              status = status_of upper doc.status;
              idempotency_key = some doc.checkpoint;
              version = 1;
              created_at = now;
              updated_at = now;
            }))
        ok (t', 1))
      else raise integrity_error
  write_workflow t doc now (some row) =
      if contains (status_of upper doc.status) statuses
      then ok (
        schema.workflows.put t (record row {
          status = status_of upper doc.status;
          updated_at = now;
          version = row.version + 1;
        }),
        row.version + 1,
      )
      else raise integrity_error

  -- The loop over the steps.
  unfoldable pub add_tasks :
      schema.tasks.Rows → ℕ → String → List Step → Result StoreError schema.tasks.Rows
  unfolding task_row
  add_tasks t now checkpoint [] = ok t
  add_tasks t now checkpoint (step ∷ steps) =
      let row = task_row upper tenant now checkpoint step in
      if contains row.status statuses
      then (do t' ← or_integrity (schema.tasks.insert t row); add_tasks t' now checkpoint steps)
      else raise integrity_error

  -- The checkpoint's row, as merged with the one that is there.
  merged : Document → ℕ → ℕ → Option WorkflowCheckpointRow → WorkflowCheckpointRow
  merged doc now version old = record {
    id = doc.checkpoint;
    tenant_id = tenant;
    workflow_id = doc.checkpoint;
    state = doc;
    version = version;
    created_at = created now old;
  }

  transaction : Db schema → Document → ℕ → String → Result StoreError (Db schema)
  unfolding write_workflow merged
  transaction db doc now event_id = do
    (workflows, version) ←
        write_workflow db.workflows doc now (schema.workflows.find db.workflows doc.checkpoint)
    tasks ←
        add_tasks
          (schema.tasks.delete db.tasks
            (λ r. r.workflow_id == doc.checkpoint && r.tenant_id == tenant))
          now doc.checkpoint doc.steps
    let sequence =
        last_sequence (select (is_event_of tenant doc.checkpoint) (schema.events.rows db.events))
        + 1
    let checkpoints =
        schema.checkpoints.put db.checkpoints
          (merged doc now version (schema.checkpoints.find db.checkpoints doc.checkpoint))
    events ← or_integrity (
        schema.events.insert db.events (record {
          id = event_id;
          tenant_id = tenant;
          workflow_id = doc.checkpoint;
          event_type = "workflow.persisted";
          sequence = sequence;
          payload_status = doc.status;
          created_at = now;
        }))
    ok (record { workflows = workflows; tasks = tasks; events = events; checkpoints = checkpoints })

  -- The session around the transaction: it commits, or it rolls back and raises.
  committed : Db schema → Result StoreError (Db schema) → Db schema × Result StoreError (Unit {0})
  committed db (ok db') = (db', ok tt)
  committed db (raise e) = (db, raise e)

  unfoldable pub upsert_workflow :
      Db schema → Document → ℕ → String → Db schema × Result StoreError (Unit {0})
  unfolding transaction committed
  upsert_workflow db doc now event_id = committed db (transaction db doc now event_id)

  state_of : Option WorkflowCheckpointRow → Result StoreError Document
  state_of none = raise key_error
  state_of (some row) = if not (row.tenant_id == tenant) then raise key_error else ok row.state

  -- `WorkflowStateStore.get`
  unfoldable pub get_workflow : Db schema → String → Result StoreError Document
  unfolding state_of
  get_workflow db checkpoint = state_of (schema.checkpoints.find db.checkpoints checkpoint)

  -- `WorkflowStateStore.list`
  unfoldable pub list_workflows : Db schema → List Document
  list_workflows db =
      map (λ r. r.state)
        (select (λ (r : WorkflowCheckpointRow). r.tenant_id == tenant)
          (schema.checkpoints.rows db.checkpoints))
