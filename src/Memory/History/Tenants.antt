-- ===== src/Memory/History/Tenants.antt =====
-- What calls do to a memory that is there: other tenants' calls nothing, and those of its tenant raise
-- its version (agi_platform/memory/core.py).
use agi_platform.Prelude.{
  ◌+◌, ◌≤◌, String, ◌==◌, List, [], ◌∷◌, some, All, ◌≡◌, ◌≢◌, refl, sym, ap, ◌∙◌, ◌⊎◌, inl, inr,
  arith, eq_iff, Bool-cases,
}
use agi_platform.Database.Rows.{MemoryRow}
use agi_platform.Memory.Values.{Values}
use agi_platform.Memory.Tables.{Schema, Db}
use agi_platform.Memory.Changes.{Change, kept, written}
use agi_platform.Memory.History.{Op, caller, step, run, step-Change}

module _ (v : Values) (schema : Schema v) where
  -- The row under an id after a call: the row that was there, or its next version, of the caller.
  Change-found :
      (tenant : String) (db db' : Db v schema) (id : String) (r : MemoryRow v.Float v.Json)
      → Change v schema tenant db db'
      → schema.memories.find db.memories id ≡ some r
      → (schema.memories.find db'.memories id ≡ some r)
        ⊎ ((r' : MemoryRow v.Float v.Json) × (schema.memories.find db'.memories id ≡ some r')
            × (r'.tenant_id ≡ r.tenant_id)
            × (r'.version ≡ r.version + 1)
            × (r.tenant_id ≡ tenant))
  Change-found tenant db db' id r (kept same_m same_v) found = inl (rw same_m found)
  Change-found tenant db db' id r (written w) found =
      let put : schema.memories.find db'.memories id ≡ _ =
        ap (λ t. schema.memories.find t id) w.memories
        ∙ schema.memories.find-put db.memories w.row id in
      elim (Bool-cases (w.row.id == id)) [
        | inr other ↦ inl (rw (put, other) found)
        | inl same ↦
            let here : schema.memories.find db.memories w.row.id ≡ some r =
              ap (schema.memories.find db.memories) ((eq_iff w.row.id id).0 same) ∙ found in
            let follows = rw here at w.follows in
            inr (w.row, rw (put, same) refl, follows.0, follows.1, sym follows.0 ∙ w.own)
      ]

  -- No call changes a memory of a tenant other than the callers'.
  pub run-keeps_others :
      (db : Db v schema) (ops : List (Op v)) (id : String) (r : MemoryRow v.Float v.Json)
      → schema.memories.find db.memories id ≡ some r
      → All (λ op. caller v op ≢ r.tenant_id) ops
      → schema.memories.find (run v schema db ops).memories id ≡ some r
  unfolding run
  run-keeps_others db [] id r found others = found
  run-keeps_others db (op ∷ ops) id r found others =
      elim (Change-found (caller v op) db (step v schema db op) id r (step-Change v schema db op)
        found) [
          | inl still ↦ run-keeps_others (step v schema db op) ops id r still others.1
          | inr (r', _, _, _, own) ↦ elim (others.0 (sym own)) [ ]
        ]

  -- A memory stays, its tenant's, and its version does not go down.
  pub run-found :
      (db : Db v schema) (ops : List (Op v)) (id : String) (r : MemoryRow v.Float v.Json)
      → schema.memories.find db.memories id ≡ some r
      → (r' : MemoryRow v.Float v.Json) × (schema.memories.find (run v schema db ops).memories id
          ≡ some r')
        × (r'.tenant_id ≡ r.tenant_id)
        × (r.version ≤ r'.version)
  unfolding run
  run-found db [] id r found = (r, found, refl, omega arith)
  run-found db (op ∷ ops) id r found =
      elim (Change-found (caller v op) db (step v schema db op) id r (step-Change v schema db op)
        found) [
          | inl still ↦ run-found (step v schema db op) ops id r still
          | inr (r₁, there, same, next, _) ↦
              let (r', there', same', up) = run-found (step v schema db op) ops id r₁ there in
              (r', there', same' ∙ same, omega (arith, next, up))
        ]
