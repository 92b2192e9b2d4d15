-- ===== src/Orchestration/Store/Failures.antt =====
-- When the write of a workflow fails (agi_platform/orchestration.py).
use agi_platform.Prelude.{
  ℕ, String, ◌+++◌, ◌==◌, List, ◌∷◌, true, ◌&&◌, none, some, raise, contains, ◌≡◌, ◌≢◌, refl, arith,
  eq_iff,
}
use agi_platform.Orchestration.Documents.{Step, Document}
use agi_platform.Orchestration.Tables.{WorkflowRow, WorkflowTaskRow, statuses, Schema, Db}
use agi_platform.Orchestration.Store.{
  integrity_error, status_of, task_row, add_tasks, write_workflow, transaction, upsert_workflow,
}

module _ (schema : Schema) (upper : String → String) (tenant : String) where
  -- A step whose task is there already, from another tenant, makes the whole write fail.
  pub upsert_occupied :
      (db : Db schema) (doc : Document) (step : Step) (steps : List Step) (now : ℕ)
      (event_id : String) (w : WorkflowRow) (r : WorkflowTaskRow)
      → doc.steps ≡ step ∷ steps
      → contains (status_of upper doc.status) statuses ≡ true
      → contains (status_of upper step.status) statuses ≡ true
      → schema.workflows.find db.workflows doc.checkpoint ≡ some w
      → schema.tasks.find db.tasks (doc.checkpoint +++ ":" +++ step.id) ≡ some r
      → r.tenant_id ≢ tenant
      → upsert_workflow schema upper tenant db doc now event_id ≡ (db, raise integrity_error)
  unfolding upsert_workflow
  upsert_occupied db doc step steps now event_id w r first status step_status taken occupied other =
      rw failed refl
    where
      kept : schema.tasks.Rows
      kept =
          schema.tasks.delete db.tasks
            (λ r. r.workflow_id == doc.checkpoint && r.tenant_id == tenant)

      still : schema.tasks.find kept (doc.checkpoint +++ ":" +++ step.id) ≡ some r
      still = rw (schema.tasks.find-delete, occupied) (ground (arith, eq_iff r.tenant_id tenant))

      refused : schema.tasks.insert kept (task_row upper tenant now doc.checkpoint step) ≡ none
      refused = unfold task_row in rw (schema.tasks.insert_lem, still) refl

      no_tasks :
          add_tasks schema upper tenant kept now doc.checkpoint doc.steps ≡ raise integrity_error
      no_tasks = unfold add_tasks task_row in rw (first, step_status, refused) refl

      failed : transaction schema upper tenant db doc now event_id ≡ raise integrity_error
      failed = unfold transaction write_workflow in rw (taken, status, no_tasks) refl
