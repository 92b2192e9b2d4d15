-- ===== src/Services/Reviews.antt =====
-- What `validate_memory` reviews (agi_platform/services.py).
use mathlib.Core.List.{Memᴰ}
use agi_platform.Prelude.{
  ℕ, String, List, [], ◌∷◌, Bool, none, some, Dict, map, Result, Result-cases, Option-cases, ok,
  raise, ◌≡◌, refl, ap, inl, inr, arith,
}
use text.Mathlib.TextPositions.{eq_refl}
use agi_platform.Security.Permissions.{TenantContext}
use agi_platform.Memory.Values.{Values, MemoryError, MemoryRecord}
use agi_platform.Memory.Tables.{Schema, Db, ensure_tenant}
use agi_platform.Memory.Entries.{to_record, digest_of}
use agi_platform.Memory.Store
use agi_platform.Memory.Store.{store_transaction, row_of_digest}
use agi_platform.Memory.Changes.Storing.{
  store_transaction_inv, row_of_digest-found, row_of_digest_inv,
}
use agi_platform.Memory.Layer
use agi_platform.Guardian.{Ratios, Review, validate_candidate}
use agi_platform.Guardian.Duplicates.{IsSimilarity, validate_candidate_lem}
use agi_platform.Services.{
  PlatformService, MemoryRequest, store_request, after_candidate, validate_memory,
}

mem-map : {A B : Type 0} → (f : A → B) (x : A) (xs : List A) → Memᴰ x xs → Memᴰ (f x) (map f xs)
mem-map f x [] m = elim m [ ]
mem-map f x (y ∷ ys) (Memᴰ.head e) = Memᴰ.head (ap f e)
mem-map f x (y ∷ ys) (Memᴰ.tail m) = Memᴰ.tail (mem-map f x ys m)

committed_inv :
    {D A : Type 0} (db db' : D) (m : Result MemoryError (D × A)) (a : A)
    → Store.committed db m ≡ (db', ok a)
    → m ≡ ok (db', a)
committed_inv db db' (ok (db'', b)) a h = ground (arith, h)
committed_inv db db' (raise e) a h = ground (arith, h)

module _ (v : Values) (schema : Schema v) where
  -- What is stored is among the memories.
  stored_transaction :
      (db db' : Db v schema) (context : TenantContext) (content memory_type : String)
      (metadata : Dict v.Json) (qdrant_available : Bool) (digest : String) (now : ℕ)
      (evidence_id audit_id : String) (entry : MemoryRecord v.Float v.Json)
      → store_transaction v schema context content memory_type metadata qdrant_available digest now
          db evidence_id audit_id
        ≡ ok (db', entry)
      → Memᴰ entry (Layer.values v schema db')
  unfolding Layer.values
  stored_transaction db db' context content memory_type metadata qdrant_available digest now
        evidence_id audit_id entry h =
      let (mid, row, got, m, _, made) =
        store_transaction_inv v schema db db' context content memory_type metadata qdrant_available
          digest now evidence_id audit_id entry h in
      let (k, there) : (k : String) × (schema.memories.find mid.memories k ≡ some row) =
        elim (Option-cases (schema.memories.find db.memories digest)) [
          | inr (old, found) ↦
              let (same, same_row) =
                row_of_digest-found v schema db mid context content memory_type metadata
                  qdrant_available digest now evidence_id old row (rw found at got) in
              (digest, rw (same, same_row) found)
          | inl absent ↦
              let (confidence, is_new, put_m, put_v) =
                row_of_digest_inv v schema db mid context content memory_type metadata
                  qdrant_available digest now evidence_id row absent (rw absent at got) in
              (
                row.id,
                rw (put_m, schema.memories.find-put db.memories row row.id, eq_refl row.id) refl,
              )
        ] in
      rw (made, m)
        (mem-map (to_record v) row (schema.memories.rows mid.memories)
          (schema.memories.mem_of_find mid.memories k row there))

  stored :
      (qdrant_available : Bool) (db db' : Db v schema) (request : MemoryRequest v schema)
      (context : TenantContext) (now : ℕ) (evidence_id audit_id : String)
      (entry : MemoryRecord v.Float v.Json)
      → store_request v schema qdrant_available db request context now evidence_id audit_id
        ≡ (db', ok entry)
      → Memᴰ entry (Layer.values v schema db')
  unfolding store_request Layer.store Store.store
  stored qdrant_available db db' request context now evidence_id audit_id entry h =
      elim (Result-cases (ensure_tenant v schema db context.tenant_id none now)) [
        | inr (e, failed) ↦ let h' = rw (failed, Store.store) at h in ground (arith, h')
        | inl (db₁, ensured) ↦
            let metadata = request.metadata in
            let digest =
              digest_of v context.tenant_id metadata request.memory_type request.content in
            let h' = rw (ensured, Store.store) at h in
            stored_transaction db₁ db' context request.content request.memory_type metadata
              qdrant_available digest now evidence_id audit_id entry
              (committed_inv db₁ db'
                (store_transaction v schema context request.content request.memory_type metadata
                  qdrant_available digest now db₁ evidence_id audit_id)
                entry h')
      ]

  -- With a similarity that finds equal texts similar, every candidate that is stored is reported as a
  -- duplicate of a memory and sent to review, since it is compared with all memories, of which it is one.
  pub validate_memory-store_request :
      (ratios : Ratios) (laws : IsSimilarity ratios) (qdrant_available : Bool)
      (s : PlatformService v schema) (request : MemoryRequest v schema) (context : TenantContext)
      (now : ℕ) (evidence_id audit_id : String) (db : Db v schema)
      (entry : MemoryRecord v.Float v.Json)
      → store_request v schema qdrant_available s.memory request context now evidence_id audit_id
        ≡ (db, ok entry)
      → (review : Review) × (d : MemoryRecord v.Float v.Json) × Memᴰ d (Layer.values v schema db)
        × ((validate_memory v schema ratios qdrant_available s request context now evidence_id
              audit_id).1
            ≡ ok review)
        × (review.duplicate_id ≡ some d.id)
        × (review.decision ≡ "review")
  unfolding validate_memory after_candidate
  validate_memory-store_request ratios laws qdrant_available s request context now evidence_id
        audit_id db entry made =
      let existing = Layer.values v schema db in
      let review = (validate_candidate v ratios s.guardian entry existing).1 in
      let (d, listed, reported, decided) =
        (validate_candidate_lem v ratios laws s.guardian entry existing).0 entry
          (stored qdrant_available s.memory db request context now evidence_id audit_id entry made)
          (laws.equal entry.content) in
      (review, d, listed, rw made refl, reported, decided)
