-- ===== src/Memory/Changes/Storing.antt =====
-- What `store` does to memories and versions (agi_platform/memory/core.py).
use agi_platform.Prelude.{
  ℕ, String, [], ◌∷◌, ◌++◌, Bool, Option, none, some, or_else, Dict, Result-cases, ok, ◌≡◌, refl,
  ap, ◌∙◌, arith, Option-cases, inl, inr,
}
use agi_platform.Security.Permissions.{TenantContext}
use agi_platform.Database.Rows.{MemoryRow}
use agi_platform.Memory.Values.{Values, MemoryRecord}
use agi_platform.Memory.Tables.{Schema, Db, add_version, ensure_tenant}
use agi_platform.Memory.Entries.{to_record, version_of, new_row, digest_of, confidence_of}
use agi_platform.Memory.Store.{write_audit, row_of_digest, store}
use agi_platform.Memory.Store.{store_transaction}
use agi_platform.Memory.Changes.{Change, kept, written, committed-cases}

module _ (v : Values) (schema : Schema v) where
  pub row_of_digest_inv :
      (db db' : Db v schema) (context : TenantContext) (content memory_type : String)
      (metadata : Dict v.Json) (qdrant_available : Bool) (digest : String) (now : ℕ)
      (evidence_id : String) (row : MemoryRow v.Float v.Json)
      → schema.memories.find db.memories digest ≡ none
      → row_of_digest v schema context content memory_type metadata qdrant_available digest now db
          evidence_id none
        ≡ ok (db', row)
      → (confidence : v.Float) × (row
          ≡ new_row v context content memory_type metadata qdrant_available digest now confidence)
        × (db'.memories ≡ schema.memories.put db.memories row)
        × (db'.versions ≡ db.versions ++ (version_of v row now ∷ []))
  unfolding row_of_digest add_version
  row_of_digest_inv db db' context content memory_type metadata qdrant_available digest now
        evidence_id row absent h =
      elim (Result-cases (confidence_of v metadata)) [
        | inr (e, c) ↦ let h' = rw c at h in cc
        | inl (confidence, c) ↦
            let new =
              new_row v context content memory_type metadata qdrant_available digest now
                confidence in
            let there : schema.memories.find db.memories new.id ≡ none = unfold new_row in absent in
            let inserted : schema.memories.insert db.memories new
                ≡ some (schema.memories.put db.memories new) =
              schema.memories.insert_lem db.memories new ∙ rw there refl in
            let h' = rw c at h in
            let made : (row ≡ new)
                × (db'.memories ≡ schema.memories.put db.memories row)
                × (db'.versions ≡ db.versions ++ (version_of v row now ∷ [])) =
              ground (arith, inserted) in
            (confidence, made.0, made.1, made.2)
      ]

  write_audit-kept :
      (db db' : Db v schema) (context : TenantContext) (action target : String) (metadata : v.Json)
      (now : ℕ) (audit_id : String)
      → write_audit v schema db context action target metadata now audit_id ≡ ok db'
      → (db'.memories ≡ db.memories) × (db'.versions ≡ db.versions)
  unfolding write_audit
  write_audit-kept db db' context action target metadata now audit_id h = ground arith

  pub ensure_tenant-kept :
      (db db' : Db v schema) (tenant : String) (name : Option String) (now : ℕ)
      → ensure_tenant v schema db tenant name now ≡ ok db'
      → (db'.memories ≡ db.memories) × (db'.versions ≡ db.versions)
  unfolding ensure_tenant
  ensure_tenant-kept db db' tenant name now h = ground arith

  -- What the transaction of `store` returns, and what it leaves.
  pub store_transaction_inv :
      (db db' : Db v schema) (context : TenantContext) (content memory_type : String)
      (metadata : Dict v.Json) (qdrant_available : Bool) (digest : String) (now : ℕ)
      (evidence_id audit_id : String) (entry : MemoryRecord v.Float v.Json)
      → store_transaction v schema context content memory_type metadata qdrant_available digest now
          db evidence_id audit_id
        ≡ ok (db', entry)
      → (mid : Db v schema) × (row : MemoryRow v.Float v.Json) × (row_of_digest v schema context
            content memory_type metadata qdrant_available digest now db evidence_id
            (schema.memories.find db.memories digest)
          ≡ ok (mid, row))
        × (db'.memories ≡ mid.memories)
        × (db'.versions ≡ mid.versions)
        × (entry ≡ to_record v row)
  unfolding store_transaction
  store_transaction_inv db db' context content memory_type metadata qdrant_available digest now
        evidence_id audit_id entry h =
      elim (Result-cases (
        row_of_digest v schema context content memory_type metadata qdrant_available digest now db
          evidence_id (schema.memories.find db.memories digest))) [
            | inr (e, c) ↦ let h' = rw c at h in cc
            | inl ((mid, row), c) ↦
                let h' = rw c at h in
                let rest : (db'.memories ≡ mid.memories)
                    × (db'.versions ≡ mid.versions)
                    × (entry ≡ to_record v row) =
                  unfold write_audit in ground arith in
                (mid, row, c, rest.0, rest.1, rest.2)
          ]

  pub row_of_digest-found :
      (db db' : Db v schema) (context : TenantContext) (content memory_type : String)
      (metadata : Dict v.Json) (qdrant_available : Bool) (digest : String) (now : ℕ)
      (evidence_id : String) (old row : MemoryRow v.Float v.Json)
      → row_of_digest v schema context content memory_type metadata qdrant_available digest now db
          evidence_id
          (some old)
        ≡ ok (db', row)
      → (db' ≡ db) × (row ≡ old)
  unfolding row_of_digest
  row_of_digest-found db db' context content memory_type metadata qdrant_available digest now
        evidence_id old row h =
      ground arith

  store_transaction-Change :
      (db db₁ db' : Db v schema) (context : TenantContext) (content memory_type : String)
      (metadata : Dict v.Json) (qdrant_available : Bool) (digest : String) (now : ℕ)
      (evidence_id audit_id : String) (entry : MemoryRecord v.Float v.Json)
      → db₁.memories ≡ db.memories
      → db₁.versions ≡ db.versions
      → store_transaction v schema context content memory_type metadata qdrant_available digest now
          db₁ evidence_id audit_id
        ≡ ok (db', entry)
      → Change v schema context.tenant_id db db'
  unfolding new_row version_of
  store_transaction-Change db db₁ db' context content memory_type metadata qdrant_available digest
        now evidence_id audit_id entry same_m same_v h =
      let (mid, row, got, m, vs, _) =
        store_transaction_inv db₁ db' context content memory_type metadata qdrant_available digest
          now evidence_id audit_id entry h in
      elim (Option-cases (schema.memories.find db₁.memories digest)) [
        | inr (old, found) ↦
            let (same, _) =
              row_of_digest-found db₁ mid context content memory_type metadata qdrant_available
                digest now evidence_id old row (rw found at got) in
            kept (rw (m, same) same_m) (rw (vs, same) same_v)
        | inl absent ↦
            let (confidence, is_new, put_m, put_v) =
              row_of_digest_inv db₁ mid context content memory_type metadata qdrant_available digest
                now evidence_id row absent (rw absent at got) in
            let there : schema.memories.find db.memories row.id ≡ none =
              rw is_new (rw same_m at absent) in
            written (record {
              row = row;
              entry = version_of v row now;
              own = ap (λ (r : MemoryRow v.Float v.Json). r.tenant_id) is_new;
              describes = record { tenant = refl; memory = refl; number = refl; text = refl };
              follows = rw there (ap (λ (r : MemoryRow v.Float v.Json). r.version) is_new);
              memories = m ∙ put_m ∙ ap (λ t. schema.memories.put t row) same_m;
              versions = vs ∙ put_v ∙ ap (λ rs. rs ++ (version_of v row now ∷ [])) same_v;
            })
      ]

  pub store-Change :
      (qdrant_available : Bool) (db : Db v schema) (context : TenantContext)
      (content memory_type : String) (metadata : Option (Dict v.Json)) (now : ℕ)
      (evidence_id audit_id : String)
      → Change v schema context.tenant_id db
          (store v schema qdrant_available db context content memory_type metadata now evidence_id
            audit_id).0
  unfolding store
  store-Change qdrant_available db context content memory_type metadata now evidence_id audit_id =
      elim (Result-cases (ensure_tenant v schema db context.tenant_id none now)) [
        | inr (e, failed) ↦ rw (failed, store) (kept refl refl)
        | inl (db₁, ensured) ↦
            let (same_m, same_v) = ensure_tenant-kept db db₁ context.tenant_id none now ensured in
            rw (ensured, store)
              (committed-cases (Change v schema context.tenant_id db) db₁
                (store_transaction v schema context content memory_type (or_else metadata [])
                  qdrant_available
                  (digest_of v context.tenant_id (or_else metadata []) memory_type content) now db₁
                  evidence_id audit_id)
                (kept same_m same_v)
                (λ db' entry h.
                  store_transaction-Change db db₁ db' context content memory_type
                    (or_else metadata []) qdrant_available _ now evidence_id audit_id entry same_m
                    same_v h))
      ]
