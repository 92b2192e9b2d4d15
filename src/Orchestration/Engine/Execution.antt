-- ===== src/Orchestration/Engine/Execution.antt =====
-- What `execute` does to a workflow, and what a second call does (agi_platform/orchestration.py).
use agi_platform.Prelude.{
  ℕ, ◌+◌, String, ◌==◌, List, [], ◌∷◌, ◌++◌, length, false, Result, ok, raise, contains,
  if◌then◌else◌, ◌≡◌, ◌≢◌, refl, sym, ◌∙◌, inl, inr, arith, eq_iff, eq_refl, Bool-cases,
  Result-cases, length-append,
}
use agi_platform.Orchestration.Documents.{Observation, Step, workflow_completed, Document}
use agi_platform.Orchestration.Tables.{Schema, Db}
use agi_platform.Orchestration.Store.{StoreError, upsert_workflow, get_workflow}
use agi_platform.Orchestration.Store.Reads.{get_workflow-upsert}
use agi_platform.Orchestration.Engine.{
  execute_step, complete_step, execute_steps, runnable, executed_document, wrote, execute,
}

-- A step that is completed now: with one observation more, of the step itself and under its key, and
-- otherwise as it was.
pub record Completed (s s' : Step) : Type 0 where
  pub observation : Observation
  pub was_open : s.status ≢ "completed"
  pub status : s'.status ≡ "completed"
  pub observations : s'.observations ≡ s.observations ++ observation ∷ []
  pub of_step : observation.step_id ≡ s.id
  pub under_key : observation.idempotency_key ≡ s.idempotency_key
  pub id : s'.id ≡ s.id
  pub agent : s'.agent ≡ s.agent
  pub role : s'.role ≡ s.role
  pub action : s'.action ≡ s.action
  pub retries : s'.retries ≡ s.retries
  pub idempotency_key : s'.idempotency_key ≡ s.idempotency_key

-- A step that was completed stays as it was; another is completed now.
pub data Done : Step → Step → Type 0 where
  already : (s : Step) → s.status ≡ "completed" → Done s s
  just_now : (s s' : Step) → Completed s s' → Done s s'

-- The steps one by one.
pub data AllDone : List Step → List Step → Type 0 where
  none_left : AllDone [] []
  and_then :
      {s s' : Step} {ss ss' : List Step} → Done s s' → AllDone ss ss' → AllDone (s ∷ ss) (s' ∷ ss')

-- The number of steps that are not completed.
unfoldable pub open_steps : List Step → ℕ
open_steps [] = 0
open_steps (s ∷ ss) = if s.status == "completed" then open_steps ss else 1 + open_steps ss

not_completed : (s : Step) → (s.status == "completed") ≡ false → s.status ≢ "completed"
not_completed s h e = ground (arith, eq_iff s.status "completed")

Completed-complete_step :
    (task : String) (s : Step) (time : ℕ)
    → s.status ≢ "completed"
    → Completed s (complete_step s (execute_step task s time))
unfolding complete_step execute_step
Completed-complete_step task s time h = record {
  observation = execute_step task s time;
  was_open = h;
  status = refl;
  observations = refl;
  of_step = refl;
  under_key = refl;
  id = refl;
  agent = refl;
  role = refl;
  action = refl;
  retries = refl;
  idempotency_key = refl;
}

AllDone-execute_steps :
    (time : ℕ → ℕ) (reading : ℕ) (task : String) (steps : List Step)
    → AllDone steps (execute_steps time reading task steps).0
unfolding execute_steps execute_step
AllDone-execute_steps time reading task [] = none_left
AllDone-execute_steps time reading task (s ∷ steps) = elim (Bool-cases (s.status == "completed")) [
  | inl done ↦ rw done (
      and_then (already s ((eq_iff s.status "completed").0 done))
        (AllDone-execute_steps time reading task steps))
  | inr open_step ↦ rw open_step (
      and_then
        (just_now s _ (Completed-complete_step task s (time reading) (not_completed s open_step)))
        (AllDone-execute_steps time (reading + 1) task steps))
]

-- One event for each step that was open.
length-execute_steps :
    (time : ℕ → ℕ) (reading : ℕ) (task : String) (steps : List Step)
    → length (execute_steps time reading task steps).1 ≡ open_steps steps
unfolding execute_steps open_steps
length-execute_steps time reading task [] = refl
length-execute_steps time reading task (s ∷ steps) = ground (
  arith,
  length-execute_steps time reading task steps,
  length-execute_steps time (reading + 1) task steps,
)

-- For any workflow that is run, with some steps completed before or none: every step is completed
-- after it, those completed before are as they were, every other one gains one observation, of itself
-- and under its idempotency key; and the workflow gains one event for each of those and one for itself.
pub executed_document-AllDone :
    (time : ℕ → ℕ) (checkpoint : String) (doc : Document)
    → let doc' = executed_document time checkpoint doc in
      AllDone doc.steps doc'.steps
      × (doc'.status ≡ "completed")
      × (length doc'.events ≡ length doc.events + open_steps doc.steps + 1)
unfolding executed_document
executed_document-AllDone time checkpoint doc =
    let new = (execute_steps time 0 doc.task doc.steps).1 in
    let last = (execute_steps time 0 doc.task doc.steps).2 in
    let closing = workflow_completed checkpoint (time last) ∷ [] in
    let appended : length ((doc.events ++ new) ++ closing)
        ≡ length doc.events + open_steps doc.steps + 1 =
      omega (
        arith,
        length-append (doc.events ++ new) closing,
        length-append doc.events new,
        length-execute_steps time 0 doc.task doc.steps,
      ) in
    (AllDone-execute_steps time 0 doc.task doc.steps, refl, appended)

module _ (schema : Schema) (upper : String → String) where
  -- Each document that a tenant reads has the checkpoint under which it is read.
  abbrev pub WellKeyed : Db schema → Type 0
  WellKeyed db =
      (tenant k : String) (doc : Document)
      → get_workflow schema upper tenant db k ≡ ok doc
      → doc.checkpoint ≡ k

  -- A write keeps it so.
  pub WellKeyed-upsert :
      (tenant : String) (db db' : Db schema) (doc : Document) (now : ℕ) (event_id : String)
      → upsert_workflow schema upper tenant db doc now event_id ≡ (db', ok tt)
      → WellKeyed db
      → WellKeyed db'
  WellKeyed-upsert tenant db db' doc now event_id h well reader k found e =
      let reads = get_workflow-upsert schema upper tenant db db' doc now event_id h reader k in
      elim (Bool-cases (doc.checkpoint == k)) [
        | inr other ↦ well reader k found (sym (rw other at reads) ∙ e)
        | inl same ↦ elim (Bool-cases (tenant == reader)) [
          | inr stranger ↦ absurd (cc (rw (same, stranger) at reads, e))
          | inl own ↦
              let read : doc ≡ found = cc (rw (same, own) at reads, e) in
              rw (← read) ((eq_iff doc.checkpoint k).0 same)
        ]
      ]

  pub wrote-ok :
      (doc found : Document) (r : Db schema × Result StoreError (Unit {0})) (db' : Db schema)
      → wrote doc r ≡ (db', ok found)
      → (r ≡ (db', ok tt)) × (doc ≡ found)
  wrote-ok doc found (x, ok u) db' h = (let e : x ≡ db' = cc in rw e, cc)
  wrote-ok doc found (x, raise e) db' h = absurd cc

  module _ (tenant : String) where
    -- The tenant reads what it wrote.
    pub reads_own :
        (db db' : Db schema) (k : String) (doc : Document) (now : ℕ) (event_id : String)
        → doc.checkpoint ≡ k
        → upsert_workflow schema upper tenant db doc now event_id ≡ (db', ok tt)
        → get_workflow schema upper tenant db' k ≡ ok doc
    reads_own db db' k doc now event_id keyed written =
        get_workflow-upsert schema upper tenant db db' doc now event_id written tenant k
        ∙ rw (keyed, eq_refl k, eq_refl tenant) refl

    -- On a workflow that is not to be run, a call changes nothing.
    execute_idle :
        (db : Db schema) (k : String) (doc : Document) (time : ℕ → ℕ) (now : ℕ) (event_id : String)
        → get_workflow schema upper tenant db k ≡ ok doc
        → contains doc.status runnable ≡ false
        → execute schema upper tenant db k time now event_id ≡ (db, ok doc)
    unfolding execute
    execute_idle db k doc time now event_id found idle = rw (found, execute, idle) refl

    -- A call that succeeds leaves the workflow idle, as what it gave back.
    execute_leaves_idle :
        (db db' : Db schema) (k : String) (doc : Document) (time : ℕ → ℕ) (now : ℕ)
        (event_id : String)
        → WellKeyed db
        → execute schema upper tenant db k time now event_id ≡ (db', ok doc)
        → (get_workflow schema upper tenant db' k ≡ ok doc) × (contains doc.status runnable ≡ false)
    unfolding execute executed_document
    execute_leaves_idle db db' k doc time now event_id well h =
        elim (Result-cases (get_workflow schema upper tenant db k)) [
          | inr (e, missing) ↦ absurd (cc (rw (missing, execute) at h))
          | inl (w, found) ↦
              let ran = rw (found, execute) at h in
              elim (Bool-cases (contains w.status runnable)) [
                | inr idle ↦
                    let same : w ≡ doc = cc (rw idle at ran) in
                    let unchanged : db ≡ db' = cc (rw idle at ran) in
                    (rw (← unchanged, ← same) found, rw (← same) idle)
                | inl runs ↦
                    let (written, made) =
                      wrote-ok (executed_document time k w) doc _ db' (rw runs at ran) in
                    (
                      rw (← made) (
                          reads_own db db' k (executed_document time k w) now event_id
                            (well tenant k w found) written),
                      rw (← made) (unfold contains in refl),
                    )
              ]
        ]

    -- In a store where documents are read under their own checkpoints: once a call of `execute`
    -- succeeds, its document is what the tenant reads in the store that it leaves, and another call
    -- on that store gives the same document and leaves the store as it is, at whatever time and with
    -- whatever identifier for an event.
    pub execute_once :
        (db db' : Db schema) (k : String) (doc : Document) (time : ℕ → ℕ) (now : ℕ)
        (event_id : String)
        → WellKeyed db
        → execute schema upper tenant db k time now event_id ≡ (db', ok doc)
        → (get_workflow schema upper tenant db' k ≡ ok doc)
          × ((time' : ℕ → ℕ) (now' : ℕ) (event_id' : String)
              → execute schema upper tenant db' k time' now' event_id' ≡ (db', ok doc))
    execute_once db db' k doc time now event_id well h =
        let (found, idle) = execute_leaves_idle db db' k doc time now event_id well h in
        (found, λ time' now' event_id'. execute_idle db' k doc time' now' event_id' found idle)
