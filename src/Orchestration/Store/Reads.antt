-- ===== src/Orchestration/Store/Reads.antt =====
-- What the store reads back after a workflow is written, and the numbering of its events
-- (agi_platform/orchestration.py).
use mathlib.Core.List.{Memᴰ}
use agi_platform.Prelude.{
  ℕ, ◌+◌, ◌≤◌, ◌<◌, String, ◌==◌, List, [], ◌∷◌, true, ◌&&◌, Option, none, some, ok, raise,
  if◌then◌else◌, ◌≡◌, ap, ◌∙◌, inl, inr, arith, eq_refl, Bool-cases, Option-cases, Result-cases,
}
use agi_platform.Database.{select}
use agi_platform.Database.Select.{mem-select}
use agi_platform.Orchestration.Documents.{Document}
use agi_platform.Orchestration.Tables.{WorkflowRow, WorkflowEventRow, Schema, Db}
use agi_platform.Orchestration.Store.{
  key_error, or_integrity, last_sequence, is_event_of, write_workflow, add_tasks, merged,
  transaction, upsert_workflow, get_workflow,
}

or_integrity_ok : {A : Type 0} (o : Option A) (a : A) → or_integrity o ≡ ok a → o ≡ some a
or_integrity_ok none a h = cc
or_integrity_ok (some b) a h = cc

last_sequence-ge :
    (es : List WorkflowEventRow) (e : WorkflowEventRow) → Memᴰ e es → e.sequence ≤ last_sequence es
unfolding last_sequence
last_sequence-ge [] e m = elim m [ ]
last_sequence-ge (f ∷ es) e (Memᴰ.head p) = rw p (omega arith)
last_sequence-ge (f ∷ es) e (Memᴰ.tail m) = omega (arith, last_sequence-ge es e m)

module _ (schema : Schema) (upper : String → String) (tenant : String) where
  -- The event that a transaction adds.
  abbrev event_row : Db schema → Document → ℕ → String → WorkflowEventRow
  event_row db doc now event_id = record {
    id = event_id;
    tenant_id = tenant;
    workflow_id = doc.checkpoint;
    event_type = "workflow.persisted";
    sequence =
        last_sequence (select (is_event_of tenant doc.checkpoint) (schema.events.rows db.events))
        + 1;
    payload_status = doc.status;
    created_at = now;
  }

  transaction-ok :
      (db : Db schema) (doc : Document) (now : ℕ) (event_id : String) (db' : Db schema)
      → transaction schema upper tenant db doc now event_id ≡ ok db'
      → (version : ℕ) × (db'.checkpoints
          ≡ schema.checkpoints.put db.checkpoints (
              merged schema upper tenant doc now version
                (schema.checkpoints.find db.checkpoints doc.checkpoint)))
        × (schema.events.insert db.events (event_row db doc now event_id) ≡ some db'.events)
  unfolding transaction
  transaction-ok db doc now event_id db' h =
      elim (Result-cases (write_workflow schema upper tenant db.workflows doc now row)) [
        | inr (e, wrote) ↦ absurd (cc (rw wrote at h))
        | inl (written, wrote) ↦
            let h₁ = rw wrote at h in
            elim (Result-cases (add_tasks schema upper tenant kept now doc.checkpoint doc.steps)) [
              | inr (e, added) ↦ absurd (cc (rw added at h₁))
              | inl (tasks, added) ↦
                  let h₂ = rw added at h₁ in
                  elim (Option-cases
                    (schema.events.insert db.events (event_row db doc now event_id))) [
                      | inl refused ↦ absurd (cc (rw refused at h₂))
                      | inr (events, inserted) ↦
                          let h₃ = rw inserted at h₂ in
                          (written.1, cc h₃, inserted ∙ ap some (cc h₃))
                    ]
            ]
      ]
    where
      row : Option WorkflowRow
      row = schema.workflows.find db.workflows doc.checkpoint

      kept : schema.tasks.Rows
      kept =
          schema.tasks.delete db.tasks
            (λ r. r.workflow_id == doc.checkpoint && r.tenant_id == tenant)

  upsert-ok :
      (db db' : Db schema) (doc : Document) (now : ℕ) (event_id : String)
      → upsert_workflow schema upper tenant db doc now event_id ≡ (db', ok tt)
      → transaction schema upper tenant db doc now event_id ≡ ok db'
  unfolding upsert_workflow
  upsert-ok db db' doc now event_id h =
      elim (Result-cases (transaction schema upper tenant db doc now event_id)) [
        | inl (db₁, done) ↦ let same : db₁ ≡ db' = cc (rw done at h) in done ∙ ap ok same
        | inr (e, failed) ↦ absurd (cc (rw failed at h))
      ]

  -- After a write that succeeds, the tenant that wrote reads the document back under its checkpoint;
  -- every other tenant finds nothing there, also one that had a document of its own there before; and
  -- what is read under other checkpoints is as it was, for every tenant.
  pub get_workflow-upsert :
      (db db' : Db schema) (doc : Document) (now : ℕ) (event_id : String)
      → upsert_workflow schema upper tenant db doc now event_id ≡ (db', ok tt)
      → (reader k : String)
      → get_workflow schema upper reader db' k ≡ (
          if doc.checkpoint == k
          then (if tenant == reader then ok doc else raise key_error)
          else get_workflow schema upper reader db k)
  unfolding get_workflow
  get_workflow-upsert db db' doc now event_id h reader k =
      let (version, wrote, _) =
        transaction-ok db doc now event_id db' (upsert-ok db db' doc now event_id h) in
      rw (wrote, schema.checkpoints.find-put)
        (elim (Bool-cases (doc.checkpoint == k)) [
          | inl same ↦ unfold merged in rw same (ground arith)
          | inr other ↦ unfold merged in rw other
        ])

  -- A write that succeeds adds one event, under its id, numbered above every earlier event of the
  -- workflow in the tenant.
  sequence-upsert :
      (db db' : Db schema) (doc : Document) (now : ℕ) (event_id : String)
      → upsert_workflow schema upper tenant db doc now event_id ≡ (db', ok tt)
      → (e : WorkflowEventRow) × (schema.events.find db'.events event_id ≡ some e)
        × (schema.events.find db.events event_id ≡ none)
        × ((old : WorkflowEventRow)
            → Memᴰ old (schema.events.rows db.events)
            → is_event_of tenant doc.checkpoint old ≡ true
            → old.sequence < e.sequence)
  sequence-upsert db db' doc now event_id h =
      let (version, _, inserted) =
        transaction-ok db doc now event_id db' (upsert-ok db db' doc now event_id h) in
      let e = event_row db doc now event_id in
      let lem = schema.events.insert_lem db.events e in
      elim (Option-cases (schema.events.find db.events event_id)) [
        | inr (old, taken) ↦
            let refused : schema.events.insert db.events e ≡ none = rw (lem, taken) in
            absurd (cc (inserted, refused))
        | inl free ↦
            let accepted : schema.events.insert db.events e ≡ some (schema.events.put db.events e) =
              rw (lem, free) in
            let put : schema.events.put db.events e ≡ db'.events = cc (inserted, accepted) in
            (
              e,
              rw (← put, schema.events.find-put, eq_refl),
              free,
              λ old m of_workflow.
                  let earlier = last_sequence-ge _ old (
                    mem-select (is_event_of tenant doc.checkpoint) (schema.events.rows db.events)
                      old m of_workflow) in
                  omega arith,
            )
      ]
