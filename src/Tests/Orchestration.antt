-- ===== src/Tests/Orchestration.antt =====
-- The theorems on workflow leases and the workflow store at concrete tables
-- (agi_platform/orchestration.py).
use agi_platform.Prelude.{
  ℕ, ◌<◌, String, ◌==◌, Option, none, some, List, [], ◌∷◌, true, ok, raise, get, contains,
  if◌then◌else◌, ◌≡◌, ◌≢◌, refl, ◌⊎◌, arith,
}
use agi_platform.Database.{Table, select}
use agi_platform.Database.ListTable
use agi_platform.Database.ListTable.{list_table}
use agi_platform.Orchestration.Documents.{Document, workflow_planned}
use agi_platform.Orchestration.Tables.{WorkflowTaskRow, task_key, Schema, Db}
use agi_platform.Orchestration.Leases.{
  is_leasable, earliest, leased, is_expired, lease_next_task, recover_expired_leases,
}
use agi_platform.Orchestration.Leases.Exclusive.{
  lease, succeed, completed, Op, about, log, lease_exclusive,
}
use agi_platform.Orchestration.Leases.Recovered.{Recovered}
use agi_platform.Orchestration.Leases.Recovery.{
  recover_expired_leases-each, exhausted_stays_leasable,
}
use agi_platform.Orchestration.Store.{
  key_error, upsert_workflow, get_workflow, is_event_of, status_of, last_sequence, add_tasks,
}
use agi_platform.Orchestration.Store.Reads.{get_workflow-upsert}

abbrev tasks : Table WorkflowTaskRow task_key
tasks = list_table task_key

abbrev task : String → String → Option String → Option ℕ → ℕ → WorkflowTaskRow
task id status owner expires attempts = record {
  id = id;
  tenant_id = "acme";
  workflow_id = "checkpoint-1";
  agent = "architect";
  action = "architect handles it";
  status = status;
  lease_owner = owner;
  lease_expires_at = expires;
  attempts = attempts;
  max_attempts = 3;
  idempotency_key = id;
  created_at = 10;
  updated_at = 10;
}

abbrev pending : tasks.Rows
pending = (task "step-1" "PENDING" none none 0 ∷ [], (tt, tt))

abbrev running : tasks.Rows
running = (task "step-1" "RUNNING" (some "worker-1") (some 130) 1 ∷ [], (tt, tt))

abbrev used_up : tasks.Rows
used_up = (task "step-1" "RUNNING" (some "worker-1") (some 130) 3 ∷ [], (tt, tt))

-- A rival asks for a task and completes the one that it does not have; then the worker completes it.
abbrev ops : List Op
ops =
    lease "acme" "checkpoint-1" "worker-2" 101 30
    ∷ succeed "acme" "step-1" "worker-2" 102
    ∷ succeed "acme" "step-1" "worker-1" 103
    ∷ succeed "acme" "step-1" "worker-1" 104
    ∷ []

abbrev after_lease : tasks.Rows
after_lease = (lease_next_task tasks "acme" pending "checkpoint-1" "worker-1" 100 30).0

leases_step :
    lease_next_task tasks "acme" pending "checkpoint-1" "worker-1" 100 30
    ≡ (after_lease, some "step-1")
unfolding lease_next_task earliest select is_leasable
leases_step = refl

lease_exclusive_example :
    (about "step-1" (log tasks after_lease ops) ≡ [])
    ⊎ (about "step-1" (log tasks after_lease ops) ≡ completed "step-1" "worker-1" ∷ [])
lease_exclusive_example =
    lease_exclusive tasks "acme" pending "checkpoint-1" "worker-1" 100 30 after_lease "step-1" ops
      leases_step

abbrev after_recovery : tasks.Rows
after_recovery = (recover_expired_leases tasks "acme" running 200).0

recover_expired_leases-each_example :
    ((k : String) → Recovered "acme" 200 (tasks.find running k) (tasks.find after_recovery k))
    × ((recover_expired_leases tasks "acme" after_recovery 200).1 ≡ 0)
recover_expired_leases-each_example = recover_expired_leases-each tasks "acme" running 200

expired : is_expired "acme" 200 (task "step-1" "RUNNING" (some "worker-1") (some 130) 3) ≡ true
unfolding is_expired
expired = refl

used_up_found :
    tasks.find used_up "step-1" ≡ some (task "step-1" "RUNNING" (some "worker-1") (some 130) 3)
unfolding ListTable.lookup
used_up_found = refl

exhausted_stays_leasable_example :
    (r' : WorkflowTaskRow) × (tasks.find
        (recover_expired_leases tasks "acme" used_up 200).0
        "step-1"
      ≡ some r')
    × (r'.status ≡ "TIMED_OUT")
    × (is_leasable "acme" "checkpoint-1" r' ≡ true)
    × ((lease_next_task tasks "acme"
          (recover_expired_leases tasks "acme" used_up 200).0
          "checkpoint-1"
          "worker-2"
          200
          30).1
        ≢ none)
    × (r'.max_attempts < (leased r' "worker-2" 200 30).attempts)
exhausted_stays_leasable_example =
    exhausted_stays_leasable tasks "acme" used_up "step-1"
      (task "step-1" "RUNNING" (some "worker-1") (some 130) 3) "worker-2" 200 30 used_up_found
      expired (omega arith)

abbrev pub schema : Schema
schema = record {
  workflows = list_table (λ r. r.id);
  tasks = list_table task_key;
  events = list_table (λ r. r.id);
  checkpoints = list_table (λ r. r.id);
}

abbrev pub empty : Db schema
empty = record { workflows = ([], tt); tasks = ([], tt); events = ([], tt); checkpoints = ([], tt) }

abbrev pub document : Document
document = record {
  task = "audit";
  steps =
      record {
        id = "step-1";
        agent = "architect";
        role = "designs the workflow and constraints";
        action = "architect handles audit";
        status = "queued";
        observations = [];
        retries = 0;
        idempotency_key = "checkpoint-1:step-1";
      }
      ∷ [];
  checkpoint = "checkpoint-1";
  status = "planned";
  created_at = 10;
  updated_at = 10;
  events = workflow_planned "checkpoint-1" 10 ∷ [];
  nodes = "architect" ∷ [];
  edges = [];
  conversation = [];
  agents = "architect" ∷ [];
  competitive_capabilities = [];
}

abbrev pub same : String → String
same s = s

abbrev pub written : Db schema
written = (upsert_workflow schema same "acme" empty document 100 "wfe-1").0

pub writes : upsert_workflow schema same "acme" empty document 100 "wfe-1" ≡ (written, ok tt)
unfolding upsert_workflow status_of last_sequence add_tasks select is_event_of contains get
    ListTable.lookup ListTable.replace ListTable.discard
writes = refl

get_workflow-upsert_example : get_workflow schema same "other" written "checkpoint-1" ≡ (
    if "checkpoint-1" == "checkpoint-1"
    then (if "acme" == "other" then ok document else raise key_error)
    else get_workflow schema same "other" empty "checkpoint-1")
get_workflow-upsert_example =
    get_workflow-upsert schema same "acme" empty written document 100 "wfe-1" writes "other"
      "checkpoint-1"
