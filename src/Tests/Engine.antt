-- ===== src/Tests/Engine.antt =====
-- The theorems on the workflow engine at a concrete database (agi_platform/orchestration.py).
use agi_platform.Prelude.{
  ℕ, ◌+◌, String, ◌+++◌, none, some, [], ◌∷◌, ◌++◌, length, ok, raise, get, contains, decimal, All,
  ◌≡◌, ◌≢◌, refl, arith, eq_iff,
}
use agi_platform.Database.{select}
use agi_platform.Database.ListTable
use agi_platform.Orchestration.Documents.{Step, workflow_completed, Document}
use agi_platform.Orchestration.Tables.{WorkflowRow, WorkflowTaskRow, Db}
use agi_platform.Orchestration.Store.{
  integrity_error, status_of, last_sequence, is_event_of, add_tasks, upsert_workflow, get_workflow,
  list_workflows,
}
use agi_platform.Orchestration.Engine.{
  role_for, new_step, steps_of, edges_of, handoffs_from, planned_document, execute_step,
  complete_step, execute_steps, executed_document, Engine, next_checkpoint, plan, execute, recover,
}
use agi_platform.Orchestration.Engine.Planning.{plan_collides}
use agi_platform.Orchestration.Engine.Execution.{
  AllDone, open_steps, executed_document-AllDone, WellKeyed, WellKeyed-upsert, execute_once,
}
use agi_platform.Orchestration.Engine.Recovery.{recover_keeps}
use agi_platform.Tests.Orchestration.{schema, empty, document, same, written, writes}

abbrev time : ℕ → ℕ
time i = 200 + i

executed_document-AllDone_example :
    AllDone document.steps (executed_document time "checkpoint-1" document).steps
    × ((executed_document time "checkpoint-1" document).status ≡ "completed")
    × (length (executed_document time "checkpoint-1" document).events
        ≡ length document.events + open_steps document.steps + 1)
executed_document-AllDone_example = executed_document-AllDone time "checkpoint-1" document

WellKeyed-empty : WellKeyed schema same empty
unfolding get_workflow ListTable.lookup
WellKeyed-empty tenant k doc h = cc

WellKeyed-written : WellKeyed schema same written
WellKeyed-written =
    WellKeyed-upsert schema same "acme" empty written document 100 "wfe-1" writes WellKeyed-empty

abbrev executed : Document
executed = executed_document time "checkpoint-1" document

abbrev after : Db schema
after = (execute schema same "acme" written "checkpoint-1" time 300 "wfe-2").0

executes : execute schema same "acme" written "checkpoint-1" time 300 "wfe-2" ≡ (after, ok executed)
unfolding execute get_workflow upsert_workflow status_of last_sequence add_tasks select is_event_of
    contains get ListTable.lookup ListTable.replace ListTable.discard executed_document
    execute_steps execute_step complete_step
executes = refl

execute_once_example :
    (get_workflow schema same "acme" after "checkpoint-1" ≡ ok executed)
    × ((time' : ℕ → ℕ) (now' : ℕ) (event_id' : String)
        → execute schema same "acme" after "checkpoint-1" time' now' event_id'
          ≡ (after, ok executed))
execute_once_example =
    execute_once schema same "acme" written after "checkpoint-1" executed time 300 "wfe-2"
      WellKeyed-written executes

executed-written : upsert_workflow schema same "acme" written executed 300 "wfe-2" ≡ (after, ok tt)
unfolding execute get_workflow upsert_workflow status_of last_sequence add_tasks select is_event_of
    contains get ListTable.lookup ListTable.replace ListTable.discard executed_document
    execute_steps execute_step complete_step
executed-written = refl

WellKeyed-after : WellKeyed schema same after
WellKeyed-after =
    WellKeyed-upsert schema same "acme" written after executed 300 "wfe-2" executed-written
      WellKeyed-written

executed_read : get_workflow schema same "acme" after "checkpoint-1" ≡ ok executed
executed_read =
    (execute_once schema same "acme" written after "checkpoint-1" executed time 300 "wfe-2"
      WellKeyed-written executes).0

abbrev recovered : Document
recovered = record executed { status = "recovered"; updated_at = 400 }

abbrev after_recovery : Db schema
after_recovery = (recover schema same "acme" after "checkpoint-1" 400 401 "wfe-3").0

abbrev again : Document
again = executed_document time "checkpoint-1" recovered

abbrev after_all : Db schema
after_all = (execute schema same "acme" after_recovery "checkpoint-1" time 500 "wfe-4").0

recovers :
    recover schema same "acme" after "checkpoint-1" 400 401 "wfe-3" ≡ (after_recovery, ok recovered)
unfolding recover execute get_workflow upsert_workflow status_of last_sequence add_tasks select
    is_event_of contains get ListTable.lookup ListTable.replace ListTable.discard executed_document
    execute_steps execute_step complete_step
recovers = refl

executes_again :
    execute schema same "acme" after_recovery "checkpoint-1" time 500 "wfe-4"
    ≡ (after_all, ok again)
unfolding recover execute get_workflow upsert_workflow status_of last_sequence add_tasks select
    is_event_of contains get ListTable.lookup ListTable.replace ListTable.discard executed_document
    execute_steps execute_step complete_step
executes_again = refl

All-done : All (λ (s : Step). s.status ≡ "completed") executed.steps
unfolding executed_document execute_steps execute_step complete_step
All-done = (refl, tt)

recover_keeps_example :
    (again.steps ≡ executed.steps)
    × (again.events ≡ executed.events ++ workflow_completed "checkpoint-1" (time 0) ∷ [])
recover_keeps_example =
    recover_keeps schema same "acme" after after_recovery after_all "checkpoint-1" executed
      recovered again 400 401 "wfe-3" time 500 "wfe-4" WellKeyed-after executed_read All-done
      recovers executes_again

abbrev engine : Engine schema
engine = record { runs = []; db = empty }

abbrev planned : Document
planned = planned_document "audit" ("architect" ∷ []) "checkpoint-1" 10

abbrev engine_after : Engine schema
engine_after = (plan schema same "acme" engine "audit" (some ("architect" ∷ [])) 10 11 "wfe-1").0

plans :
    plan schema same "acme" engine "audit" (some ("architect" ∷ [])) 10 11 "wfe-1"
    ≡ (engine_after, ok planned)
unfolding plan next_checkpoint list_workflows planned_document steps_of new_step edges_of
    handoffs_from role_for upsert_workflow status_of last_sequence add_tasks select is_event_of
    contains get decimal ListTable.lookup ListTable.replace ListTable.discard
plans = refl

abbrev shared : Engine schema
shared = record { runs = []; db = written }

abbrev acme_workflow : WorkflowRow
acme_workflow = record {
  id = "checkpoint-1";
  tenant_id = "acme";
  task = "audit";
  status = "PENDING";
  idempotency_key = some "checkpoint-1";
  version = 1;
  created_at = 100;
  updated_at = 100;
}

abbrev acme_task : WorkflowTaskRow
acme_task = record {
  id = "checkpoint-1:step-1";
  tenant_id = "acme";
  workflow_id = "checkpoint-1";
  agent = "architect";
  action = "architect handles audit";
  status = "PENDING";
  lease_owner = none;
  lease_expires_at = none;
  attempts = 0;
  max_attempts = 3;
  idempotency_key = "checkpoint-1:step-1";
  created_at = 100;
  updated_at = 100;
}

workflow_taken :
    schema.workflows.find written.workflows (next_checkpoint schema same "other" written)
    ≡ some acme_workflow
unfolding next_checkpoint list_workflows upsert_workflow status_of last_sequence add_tasks select
    is_event_of contains get decimal ListTable.lookup ListTable.replace ListTable.discard
workflow_taken = refl

task_taken :
    schema.tasks.find written.tasks
      (next_checkpoint schema same "other" written +++ ":" +++ "step-1")
    ≡ some acme_task
unfolding next_checkpoint list_workflows upsert_workflow status_of last_sequence add_tasks select
    is_event_of contains get decimal ListTable.lookup ListTable.replace ListTable.discard
task_taken = refl

another_tenant : acme_task.tenant_id ≢ "other"
another_tenant h = ground (arith, eq_iff acme_task.tenant_id "other")

plan_collides_example :
    ((plan schema same "other" shared "audit" none 10 11 "wfe-9").0.db ≡ written)
    × ((plan schema same "other" shared "audit" none 10 11 "wfe-9").1 ≡ raise integrity_error)
plan_collides_example =
    plan_collides schema same "other" shared "audit" none 10 11 "wfe-9" acme_workflow acme_task
      workflow_taken task_taken another_tenant
