-- ===== src/Orchestration/Engine/Planning.antt =====
-- What `plan` writes, and when it fails (agi_platform/orchestration.py).
use agi_platform.Prelude.{
  ℕ, ◌+◌, String, ◌+++◌, List, [], ◌∷◌, ◌++◌, map, Option, none, some, Result, ok, raise, contains,
  get, ◌≡◌, ◌≢◌, refl, ◌∙◌, eq_refl, decimal,
}
use agi_platform.Orchestration.Documents.{Step, Edge, Handoff, Document}
use agi_platform.Orchestration.Tables.{WorkflowRow, WorkflowTaskRow, Schema, Db}
use agi_platform.Orchestration.Store.{
  StoreError, integrity_error, status_of, upsert_workflow, get_workflow,
}
use agi_platform.Orchestration.Store.Failures.{upsert_occupied}
use agi_platform.Orchestration.Store.Reads.{get_workflow-upsert}
use agi_platform.Orchestration.Engine.{
  agents_or_default, new_step, steps_of, edges_of, handoffs_from, planned_document, Engine, wrote,
  next_checkpoint, plan,
}

abbrev pub edge_of : Handoff → Edge
edge_of h = record { source = h.sender; target = h.receiver }

handoffs-steps_of :
    (task checkpoint sender : String) (number : ℕ) (a : String) (agents : List String)
    → map edge_of (handoffs_from sender (steps_of task checkpoint number (a ∷ agents)))
      ≡ record { source = sender; target = a }
        ∷ edges_of (map (λ (s : Step). s.agent) (steps_of task checkpoint number (a ∷ agents)))
unfolding handoffs_from steps_of edges_of new_step
handoffs-steps_of task checkpoint sender number a [] = refl
handoffs-steps_of task checkpoint sender number a (b ∷ agents) =
    rw (handoffs-steps_of task checkpoint a (number + 1) b agents, edges_of) refl

nodes-steps_of :
    (task checkpoint : String) (number : ℕ) (agents : List String)
    → map (λ (s : Step). s.agent) (steps_of task checkpoint number agents) ≡ agents
unfolding steps_of new_step
nodes-steps_of task checkpoint number [] = refl
nodes-steps_of task checkpoint number (a ∷ agents) =
    rw (nodes-steps_of task checkpoint (number + 1) agents) refl

-- In the workflow that is planned for some agents, the graph's nodes are the agents in their order;
-- the first handoff goes from the user to the first agent, and the others go along the edges of the
-- graph, in their order, each edge once.
handoffs-planned_document :
    (task checkpoint a : String) (agents : List String) (time : ℕ)
    → let doc = planned_document task (a ∷ agents) checkpoint time in
      (doc.nodes ≡ a ∷ agents)
      × (map edge_of doc.conversation ≡ record { source = "user"; target = a } ∷ doc.edges)
unfolding planned_document
handoffs-planned_document task checkpoint a agents time = (
  nodes-steps_of task checkpoint 1 (a ∷ agents),
  handoffs-steps_of task checkpoint "user" 1 a agents,
)

agents_nonempty :
    (agents : Option (List String))
    → (a : String) × (rest : List String) × (agents_or_default agents ≡ a ∷ rest)
agents_nonempty none = (_, _, refl)
agents_nonempty (some []) = (_, _, refl)
agents_nonempty (some (a ∷ rest)) = (a, rest, refl)

module _ (schema : Schema) (upper : String → String) (tenant : String) where
  -- A plan that succeeds gives the planned workflow under the next checkpoint of the tenant, has
  -- added it to the runs, and the tenant reads it back under its checkpoint.
  plan-get_workflow :
      (engine engine' : Engine schema) (task : String) (agents : Option (List String))
      (time now : ℕ) (event_id : String) (doc : Document)
      → plan schema upper tenant engine task agents time now event_id ≡ (engine', ok doc)
      → (doc
          ≡ planned_document task
              (agents_or_default agents)
              (next_checkpoint schema upper tenant engine.db)
              time)
        × (engine'.runs ≡ engine.runs ++ doc ∷ [])
        × (get_workflow schema upper tenant engine'.db doc.checkpoint ≡ ok doc)
  unfolding plan
  plan-get_workflow engine engine' task agents time now event_id doc h =
      go (upsert_workflow schema upper tenant engine.db made now event_id) refl h
    where
      made : Document
      made =
          planned_document task (agents_or_default agents)
            (next_checkpoint schema upper tenant engine.db) time

      go :
          (r : Db schema × Result StoreError (Unit {0}))
          → upsert_workflow schema upper tenant engine.db made now event_id ≡ r
          → Path
              (Engine schema × Result StoreError Document)
              (record { runs = engine.runs ++ made ∷ []; db = (wrote made r).0 }, (wrote made r).1)
              (engine', ok doc)
          → (doc ≡ made)
            × (engine'.runs ≡ engine.runs ++ doc ∷ [])
            × (get_workflow schema upper tenant engine'.db doc.checkpoint ≡ ok doc)
      go (db', raise e) written h = absurd cc
      go (db', ok u) written h =
          let same : made ≡ doc = cc in
          let after : record { runs = engine.runs ++ made ∷ []; db = db' } ≡ engine' = cc in
          let read =
            get_workflow-upsert schema upper tenant engine.db db' made now event_id written tenant
              made.checkpoint in
          rw (← after, ← same)
            (refl, refl, read ∙ rw (eq_refl made.checkpoint, eq_refl tenant) refl)

  -- If the workflow and the first task of the tenant's next checkpoint are there already, from another
  -- tenant, then a plan for any agents fails with an integrity error and leaves the database as it was.
  pub plan_collides :
      (engine : Engine schema) (task : String) (agents : Option (List String)) (time now : ℕ)
      (event_id : String) (w : WorkflowRow) (r : WorkflowTaskRow)
      → let k = next_checkpoint schema upper tenant engine.db in
        schema.workflows.find engine.db.workflows k ≡ some w
        → schema.tasks.find engine.db.tasks (k +++ ":" +++ "step-1") ≡ some r
        → r.tenant_id ≢ tenant
        → ((plan schema upper tenant engine task agents time now event_id).0.db ≡ engine.db)
          × ((plan schema upper tenant engine task agents time now event_id).1
              ≡ raise integrity_error)
  plan_collides engine task agents time now event_id w r taken occupied other =
      let (a, rest, e) = agents_nonempty agents in
      let k = next_checkpoint schema upper tenant engine.db in
      let doc = planned_document task (agents_or_default agents) k time in
      let fails =
        upsert_occupied schema upper tenant engine.db doc (new_step task k 1 a)
          (steps_of task k 2 rest) now event_id w r (unfold planned_document steps_of in rw e refl)
          (unfold planned_document status_of contains get in refl)
          (unfold new_step status_of contains get in refl) (unfold planned_document in taken)
          (unfold planned_document new_step decimal in occupied) other in
      unfold plan in rw fails (refl, refl)
