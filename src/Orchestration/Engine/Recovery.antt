-- ===== src/Orchestration/Engine/Recovery.antt =====
-- What `recover` and a later `execute` leave of the work done (agi_platform/orchestration.py).
use mathlib.Core.List.{append-nil}
use agi_platform.Prelude.{ℕ, String, List, [], ◌∷◌, ◌++◌, true, ok, contains, All, ◌≡◌, refl}
use agi_platform.Orchestration.Documents.{Step, workflow_completed, Document}
use agi_platform.Orchestration.Tables.{Schema, Db}
use agi_platform.Orchestration.Store.{upsert_workflow, get_workflow}
use agi_platform.Orchestration.Engine.{execute_steps, runnable, executed_document, execute, recover}
use agi_platform.Orchestration.Engine.Execution.{WellKeyed, wrote-ok, reads_own}

-- Steps that are all completed are passed over.
execute_steps_idle :
    (time : ℕ → ℕ) (reading : ℕ) (task : String) (steps : List Step)
    → All (λ (s : Step). s.status ≡ "completed") steps
    → execute_steps time reading task steps ≡ (steps, [], reading)
unfolding execute_steps
execute_steps_idle time reading task [] h = refl
execute_steps_idle time reading task (s ∷ steps) h =
    rw (h.0, execute_steps_idle time reading task steps h.1) refl

executed_again :
    (time : ℕ → ℕ) (k : String) (doc : Document)
    → All (λ (s : Step). s.status ≡ "completed") doc.steps
    → ((executed_document time k doc).steps ≡ doc.steps)
      × ((executed_document time k doc).events ≡ doc.events ++ workflow_completed k (time 0) ∷ [])
unfolding executed_document
executed_again time k doc h =
    rw (execute_steps_idle time 0 doc.task doc.steps h, append-nil doc.events) (refl, refl)

module _ (schema : Schema) (upper : String → String) (tenant : String) where
  recover-ok :
      (db db' : Db schema) (k : String) (doc doc' : Document) (time now : ℕ) (event_id : String)
      → WellKeyed schema upper db
      → get_workflow schema upper tenant db k ≡ ok doc
      → recover schema upper tenant db k time now event_id ≡ (db', ok doc')
      → (doc' ≡ record doc { status = "recovered"; updated_at = time })
        × (get_workflow schema upper tenant db' k ≡ ok doc')
  unfolding recover
  recover-ok db db' k doc doc' time now event_id well found h =
      let (written, made) = wrote-ok schema upper _ doc' _ db' (rw (found, recover) at h) in
      (
        rw made,
        rw (← made) (
            reads_own schema upper tenant db db' k _ now event_id (well tenant k doc found)
              written),
      )

  execute-ok :
      (db db' : Db schema) (k : String) (doc doc' : Document) (time : ℕ → ℕ) (now : ℕ)
      (event_id : String)
      → get_workflow schema upper tenant db k ≡ ok doc
      → contains doc.status runnable ≡ true
      → execute schema upper tenant db k time now event_id ≡ (db', ok doc')
      → doc' ≡ executed_document time k doc
  unfolding execute
  execute-ok db db' k doc doc' time now event_id found runs h =
      let (written, made) =
        wrote-ok schema upper (executed_document time k doc) doc'
          (upsert_workflow schema upper tenant db (executed_document time k doc) now event_id) db'
          (rw (found, execute, runs) at h) in
      rw made

  -- Work that is done stays done: in a store where documents are read under their own checkpoints, a
  -- workflow whose steps are all completed, recovered and then executed again, has the same steps, with
  -- no observation more, and gains one event, its completion.
  pub recover_keeps :
      (db db₁ db₂ : Db schema) (k : String) (doc doc₁ doc₂ : Document) (time₁ now₁ : ℕ)
      (event₁ : String) (time₂ : ℕ → ℕ) (now₂ : ℕ) (event₂ : String)
      → WellKeyed schema upper db
      → get_workflow schema upper tenant db k ≡ ok doc
      → All (λ (s : Step). s.status ≡ "completed") doc.steps
      → recover schema upper tenant db k time₁ now₁ event₁ ≡ (db₁, ok doc₁)
      → execute schema upper tenant db₁ k time₂ now₂ event₂ ≡ (db₂, ok doc₂)
      → (doc₂.steps ≡ doc.steps) × (doc₂.events ≡ doc.events ++ workflow_completed k (time₂ 0) ∷ [])
  recover_keeps db db₁ db₂ k doc doc₁ doc₂ time₁ now₁ event₁ time₂ now₂ event₂ well found done
        recovers executes =
      let (made, read) = recover-ok db db₁ k doc doc₁ time₁ now₁ event₁ well found recovers in
      let runs : contains doc₁.status runnable ≡ true = rw made (unfold contains in refl) in
      let again = execute-ok db₁ db₂ k doc₁ doc₂ time₂ now₂ event₂ read runs executes in
      rw (again, made)
        (executed_again time₂ k (record doc { status = "recovered"; updated_at = time₁ }) done)
