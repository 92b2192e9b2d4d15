-- ===== src/Memory/Changes/Fresh.antt =====
-- A `store` adds a memory of its tenant under a new id, or none (agi_platform/memory/core.py).
use agi_platform.Prelude.{
  ℕ, String, ◌==◌, [], Bool, Option, none, some, or_else, Dict, Result-cases, ok, ◌≡◌, refl, ap,
  ◌∙◌, ◌⊎◌, Option-cases, Bool-cases, inl, inr, eq_iff, arith, if◌then◌else◌,
}
use agi_platform.Security.Permissions.{TenantContext}
use agi_platform.Database.Rows.{MemoryRow}
use agi_platform.Memory.Values.{Values, MemoryRecord}
use agi_platform.Memory.Tables.{Schema, Db, ensure_tenant}
use agi_platform.Memory.Entries.{new_row, digest_of}
use agi_platform.Memory.Store.{store_transaction, store}
use agi_platform.Memory.Changes.{committed-cases}
use agi_platform.Memory.Changes.Storing.{
  row_of_digest_inv, row_of_digest-found, ensure_tenant-kept, store_transaction_inv,
}

module _ (v : Values) (schema : Schema v) where
  -- The memories are the old ones, or a new one of the tenant is put among them.
  pub data Grown (tenant : String) (db db' : Db v schema) : Type 0 where
    same : db'.memories ≡ db.memories → Grown tenant db db'
    added :
        (row : MemoryRow v.Float v.Json)
        → schema.memories.find db.memories row.id ≡ none
        → row.tenant_id ≡ tenant
        → db'.memories ≡ schema.memories.put db.memories row
        → Grown tenant db db'

  store_transaction-Grown :
      (db db₁ db' : Db v schema) (context : TenantContext) (content memory_type : String)
      (metadata : Dict v.Json) (qdrant_available : Bool) (digest : String) (now : ℕ)
      (evidence_id audit_id : String) (entry : MemoryRecord v.Float v.Json)
      → db₁.memories ≡ db.memories
      → store_transaction v schema context content memory_type metadata qdrant_available digest now
          db₁ evidence_id audit_id
        ≡ ok (db', entry)
      → Grown context.tenant_id db db'
  unfolding new_row
  store_transaction-Grown db db₁ db' context content memory_type metadata qdrant_available digest
        now evidence_id audit_id entry same_m h =
      let (mid, row, got, m, _, _) =
        store_transaction_inv v schema db₁ db' context content memory_type metadata qdrant_available
          digest now evidence_id audit_id entry h in
      elim (Option-cases (schema.memories.find db₁.memories digest)) [
        | inr (old, found) ↦
            let (unchanged, _) =
              row_of_digest-found v schema db₁ mid context content memory_type metadata
                qdrant_available digest now evidence_id old row (rw found at got) in
            same (rw (m, unchanged) same_m)
        | inl absent ↦
            let (confidence, is_new, put_m, _) =
              row_of_digest_inv v schema db₁ mid context content memory_type metadata
                qdrant_available digest now evidence_id row absent (rw absent at got) in
            let there : schema.memories.find db.memories row.id ≡ none =
              rw is_new (rw same_m at absent) in
            added row there (ap (λ (r : MemoryRow v.Float v.Json). r.tenant_id) is_new)
              (m ∙ put_m ∙ ap (λ t. schema.memories.put t row) same_m)
      ]

  pub store-Grown :
      (qdrant_available : Bool) (db : Db v schema) (context : TenantContext)
      (content memory_type : String) (metadata : Option (Dict v.Json)) (now : ℕ)
      (evidence_id audit_id : String)
      → Grown context.tenant_id db
          (store v schema qdrant_available db context content memory_type metadata now evidence_id
            audit_id).0
  unfolding store
  store-Grown qdrant_available db context content memory_type metadata now evidence_id audit_id =
      elim (Result-cases (ensure_tenant v schema db context.tenant_id none now)) [
        | inr (e, failed) ↦ rw (failed, store) (same refl)
        | inl (db₁, ensured) ↦
            let (same_m, _) =
              ensure_tenant-kept v schema db db₁ context.tenant_id none now ensured in
            let digest = digest_of v context.tenant_id (or_else metadata []) memory_type content in
            rw (ensured, store)
              (committed-cases (Grown context.tenant_id db) db₁
                (store_transaction v schema context content memory_type (or_else metadata [])
                  qdrant_available digest now db₁ evidence_id audit_id)
                (same same_m)
                (λ db' entry h.
                  store_transaction-Grown db db₁ db' context content memory_type
                    (or_else metadata []) qdrant_available digest now evidence_id audit_id entry
                    same_m h))
      ]

  -- Memories that are there stay, and one that comes is the tenant's.
  pub Grown-found :
      (tenant : String) (db db' : Db v schema)
      → Grown tenant db db'
      → (id : String) (r : MemoryRow v.Float v.Json)
      → (schema.memories.find db.memories id ≡ some r
          → schema.memories.find db'.memories id ≡ some r)
        × (schema.memories.find db'.memories id ≡ some r
            → (schema.memories.find db.memories id ≡ some r) ⊎ (r.tenant_id ≡ tenant))
  Grown-found tenant db db' (same e) id r = (λ h. rw e h, λ h. inl (rw e at h))
  Grown-found tenant db db' (added row fresh own e) id r =
      let put : schema.memories.find db'.memories id
          ≡ (if row.id == id then some row else schema.memories.find db.memories id) =
        ap (λ t. schema.memories.find t id) e ∙ schema.memories.find-put db.memories row id in
      elim (Bool-cases (row.id == id)) [
        | inr other ↦ (λ h. rw (put, other) h, λ h. inl (rw (put, other) at h))
        | inl here ↦
            let same_id = (eq_iff row.id id).0 here in
            let free : schema.memories.find db.memories id ≡ none = rw (← same_id) fresh in
            (
              λ h. cc,
              λ h.
                  let it : some row ≡ some r = rw (put, here) at h in
                  let tenant_of : r.tenant_id ≡ row.tenant_id = ground (arith, it) in
                  inr (tenant_of ∙ own),
            )
      ]
