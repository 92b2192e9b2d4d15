-- ===== src/Orchestration/Engine.antt =====
-- `WorkflowEngine` (agi_platform/orchestration.py): `plan`, `execute` and `recover` over the workflow
-- store of one tenant. Each call takes what the clock and `new_id` give in it as arguments: `time` what
-- `int(time.time())` gives, at its first, second, … reading where there are several; `now` and
-- `event_id` are those of the store's transaction.
pub mod Planning
pub mod Execution
pub mod Recovery
use agi_platform.Prelude.{
  ℕ, ◌+◌, String, ◌+++◌, ◌==◌, List, [], ◌∷◌, ◌++◌, map, length, Bool, not, Option, none, some,
  or_else, Result, ok, raise, Dict, get, contains, decimal, if◌then◌else◌,
}
use agi_platform.Orchestration.Documents.{
  Observation, Step, WorkflowEvent, workflow_planned, step_completed, workflow_completed, Edge,
  Handoff, Document,
}
use agi_platform.Orchestration.Tables.{Schema, Db}
use agi_platform.Orchestration.Store.{StoreError, upsert_workflow, get_workflow, list_workflows}

abbrev pub default_agents : List String
default_agents = "architect" ∷ "implementer" ∷ "reviewer" ∷ []

-- `agents or […]`
abbrev pub agents_or_default : Option (List String) → List String
agents_or_default none = default_agents
agents_or_default (some []) = default_agents
agents_or_default (some (a ∷ rest)) = a ∷ rest

abbrev roles : Dict String
roles =
    ("architect", "designs the workflow and constraints")
    ∷ ("implementer", "executes the approved implementation steps")
    ∷ ("reviewer", "validates quality, safety, and production readiness")
    ∷ []

-- `_role_for`
unfoldable pub role_for : String → String
role_for agent = or_else (get roles agent) "specialized execution agent"

unfoldable pub new_step : String → String → ℕ → String → Step
unfolding role_for
new_step task checkpoint number agent = record {
  id = "step-" +++ decimal number;
  agent = agent;
  role = role_for agent;
  action = agent +++ " handles " +++ task;
  status = "queued";
  observations = [];
  retries = 0;
  idempotency_key = checkpoint +++ ":step-" +++ decimal number;
}

-- The steps of the agents, the first with the given number.
unfoldable pub steps_of : String → String → ℕ → List String → List Step
steps_of task checkpoint number [] = []
steps_of task checkpoint number (agent ∷ agents) =
    new_step task checkpoint number agent ∷ steps_of task checkpoint (number + 1) agents

-- `zip(nodes, nodes[1:])`, of `_workflow_graph`
unfoldable pub edges_of : List String → List Edge
edges_of [] = []
edges_of (a ∷ []) = []
edges_of (a ∷ (b ∷ rest)) = record { source = a; target = b } ∷ edges_of (b ∷ rest)

-- `_handoff_trace`, of steps that follow the sender
unfoldable pub handoffs_from : String → List Step → List Handoff
handoffs_from sender [] = []
handoffs_from sender (s ∷ steps) =
    record { sender = sender; receiver = s.agent; message = s.action } ∷ handoffs_from s.agent steps

abbrev pub handoff_trace : List Step → List Handoff
handoff_trace = handoffs_from "user"

abbrev capability_names : List String
capability_names =
    "workflow_graph" ∷ "crew_flow" ∷ "agent_conversation" ∷ "tool_marketplace" ∷ "sop_roles"
    ∷ "zero_code_contract" ∷ "production_backend" ∷ []

-- The workflow that `plan` builds.
unfoldable pub planned_document : String → List String → String → ℕ → Document
planned_document task agents checkpoint time =
    let steps = steps_of task checkpoint 1 agents in
    let nodes = map (λ (s : Step). s.agent) steps in
    record {
      task = task;
      steps = steps;
      checkpoint = checkpoint;
      status = "planned";
      created_at = time;
      updated_at = time;
      events = workflow_planned checkpoint time ∷ [];
      nodes = nodes;
      edges = edges_of nodes;
      conversation = handoff_trace steps;
      agents = agents;
      competitive_capabilities = capability_names;
    }

unfoldable pub execute_step : String → Step → ℕ → Observation
execute_step task step time = record {
  step_id = step.id;
  agent = step.agent;
  timestamp = time;
  observation = step.agent +++ " completed governed work on: " +++ task;
  idempotency_key = step.idempotency_key;
}

-- The step with its observation, as completed.
unfoldable pub complete_step : Step → Observation → Step
complete_step step observation = record step {
  status = "completed";
  observations = step.observations ++ observation ∷ [];
}

-- The loop over the steps, from the reading `reading` of the clock on: the steps after it, the events
-- that it appends, and the number of the next reading.
unfoldable pub execute_steps : (ℕ → ℕ) → ℕ → String → List Step → List Step × List WorkflowEvent × ℕ
execute_steps time reading task [] = ([], [], reading)
execute_steps time reading task (s ∷ steps) =
    let observation = execute_step task s (time reading) in
    let (skipped, skipped_events, skipped_reading) = execute_steps time reading task steps in
    let (later, later_events, later_reading) = execute_steps time (reading + 1) task steps in
    if s.status == "completed" then (s ∷ skipped, skipped_events, skipped_reading) else (
      complete_step s observation ∷ later,
      step_completed observation ∷ later_events,
      later_reading,
    )

abbrev pub runnable : List String
runnable = "planned" ∷ "recovered" ∷ "running" ∷ []

-- What `execute` makes of a workflow that it runs.
unfoldable pub executed_document : (ℕ → ℕ) → String → Document → Document
executed_document time checkpoint workflow =
    let (steps, events, reading) = execute_steps time 0 workflow.task workflow.steps in
    record workflow {
      steps = steps;
      status = "completed";
      updated_at = time reading;
      events = (workflow.events ++ events) ++ workflow_completed checkpoint (time reading) ∷ [];
    }

-- The state of an engine: its list of runs, and the database.
pub record Engine (schema : Schema) : Type 0 where
  pub runs : List Document
  pub db : Db schema

-- A call gives the document that it wrote, or the exception of the write.
abbrev pub wrote {ℓ} :
    {X : Type ℓ} → Document → X × Result StoreError (Unit {0}) → X × Result StoreError Document
wrote doc (x, ok _) = (x, ok doc)
wrote doc (x, raise e) = (x, raise e)

module _ (schema : Schema) (upper : String → String) (tenant : String) where
  unfoldable pub next_checkpoint : Db schema → String
  next_checkpoint db =
      "checkpoint-" +++ decimal (length (list_workflows schema upper tenant db) + 1)

  -- `runs.append(workflow)` stands before the write, and stays if that raises.
  unfoldable pub plan :
      Engine schema
      → String
      → Option (List String)
      → ℕ
      → ℕ
      → String
      → Engine schema × Result StoreError Document
  plan engine task agents time now event_id =
      let doc = planned_document task (agents_or_default agents) (next_checkpoint engine.db) time in
      let (db, result) =
        wrote doc (upsert_workflow schema upper tenant engine.db doc now event_id) in
      (record { runs = engine.runs ++ doc ∷ []; db = db }, result)

  execute_document :
      Db schema → String → Document → (ℕ → ℕ) → ℕ → String → Db schema × Result StoreError Document
  execute_document db checkpoint workflow time now event_id =
      let doc = executed_document time checkpoint workflow in
      if contains workflow.status runnable
      then wrote doc (upsert_workflow schema upper tenant db doc now event_id)
      else (db, ok workflow)

  unfoldable pub execute :
      Db schema → String → (ℕ → ℕ) → ℕ → String → Db schema × Result StoreError Document
  unfolding execute_document
  execute db checkpoint time now event_id = elim (get_workflow schema upper tenant db checkpoint) [
    | raise e ↦ (db, raise e)
    | ok workflow ↦ execute_document db checkpoint workflow time now event_id
  ]

  unfoldable pub recover :
      Db schema → String → ℕ → ℕ → String → Db schema × Result StoreError Document
  recover db checkpoint time now event_id = elim (get_workflow schema upper tenant db checkpoint) [
    | raise e ↦ (db, raise e)
    | ok workflow ↦
        let doc = record workflow { status = "recovered"; updated_at = time } in
        wrote doc (upsert_workflow schema upper tenant db doc now event_id)
  ]
