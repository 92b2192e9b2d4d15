-- ===== src/Memory/Store/Taken.antt =====
-- A `store` whose digest names a memory that is there (agi_platform/memory/core.py).
use text.Mathlib.TextLemmas.{append_assoc}
use agi_platform.Prelude.{
  ℕ, ◌+◌, String, ◌+++◌, [], ◌∷◌, Bool, Option, none, some, or_else, Dict, ok, ◌≡◌, refl, sym, ap,
  ◌∙◌, Option-cases, Result-cases, inl, inr, arith, eq_refl,
}
use agi_platform.Security.Permissions.{TenantContext}
use agi_platform.Database.Rows.{TenantRow, MemoryRow}
use agi_platform.Memory.Values.{Values, MemoryRecord}
use agi_platform.Memory.Tables.{Schema, Db, ensure_tenant}
use agi_platform.Memory.Entries.{to_record, text_at, digest_of}
use agi_platform.Memory.Store.Audited.{write_audit_ok}
use agi_platform.Memory.Store.{write_audit, row_of_digest, store_transaction, store}
use agi_platform.Memory.Revision.{revise, revised, update_row, update}
use agi_platform.Memory.Changes.{update_row_inv, revise_inv}

module _ (v : Values) where
  -- The namespace in the text under the digest runs into the tenant in front of it.
  digest_of-ambiguous :
      (tenant n m memory_type content : String) (metadata metadata' : Dict v.Json)
      → text_at v metadata "namespace" "default" ≡ n +++ ":" +++ m
      → text_at v metadata' "namespace" "default" ≡ m
      → digest_of v (tenant +++ ":" +++ n) metadata' memory_type content
        ≡ digest_of v tenant metadata memory_type content
  unfolding digest_of
  digest_of-ambiguous tenant n m memory_type content metadata metadata' e e' =
      simp (digest_of, e, e', append_assoc)

  module _ (schema : Schema v) where
    ensured :
        (db : Db v schema) (tenant : String) (name : Option String) (now : ℕ) (known : TenantRow)
        → schema.tenants.find db.tenants tenant ≡ some known
        → ensure_tenant v schema db tenant name now ≡ ok db
    unfolding ensure_tenant
    ensured db tenant name now known there = rw (there, ensure_tenant) refl

    taken :
        (db : Db v schema) (context : TenantContext) (content memory_type : String)
        (metadata : Dict v.Json) (qdrant_available : Bool) (digest : String) (now : ℕ)
        (evidence_id audit_id : String) (r : MemoryRow v.Float v.Json)
        → schema.memories.find db.memories digest ≡ some r
        → schema.audit.find db.audit audit_id ≡ none
        → (audit : schema.audit.Rows) × (store_transaction v schema context content memory_type
              metadata qdrant_available digest now db evidence_id audit_id
            ≡ ok (record db { audit = audit }, to_record v r))
    unfolding store_transaction row_of_digest
    taken db context content memory_type metadata qdrant_available digest now evidence_id audit_id r
          found fresh =
        let (audit, done) =
          write_audit_ok v schema db context "memory.write" digest
            (v.object (("qdrant_available", v.truth qdrant_available) ∷ [])) now audit_id fresh in
        (audit, rw (found, done) refl)

    store-taken :
        (qdrant_available : Bool) (db : Db v schema) (context : TenantContext)
        (content memory_type : String) (metadata : Option (Dict v.Json)) (now : ℕ)
        (evidence_id audit_id : String) (known : TenantRow) (r : MemoryRow v.Float v.Json)
        → schema.tenants.find db.tenants context.tenant_id ≡ some known
        → schema.memories.find db.memories
            (digest_of v context.tenant_id (or_else metadata []) memory_type content)
          ≡ some r
        → schema.audit.find db.audit audit_id ≡ none
        → let (db', result) =
            store v schema qdrant_available db context content memory_type metadata now evidence_id
              audit_id in
          (result ≡ ok (to_record v r))
          × (db'.memories ≡ db.memories)
          × (db'.versions ≡ db.versions)
    unfolding store
    store-taken qdrant_available db context content memory_type metadata now evidence_id audit_id
          known r there found fresh =
        let (audit, done) =
          taken db context content memory_type (or_else metadata []) qdrant_available
            (digest_of v context.tenant_id (or_else metadata []) memory_type content) now
            evidence_id audit_id r found fresh in
        rw (ensured db context.tenant_id none now known there, store, done) (refl, refl, refl)

    update_leaves :
        (db db' : Db v schema) (context : TenantContext) (id content : String) (expected now : ℕ)
        (audit_id : String) (entry : MemoryRecord v.Float v.Json)
        → update v schema db context id content expected now audit_id ≡ (db', ok entry)
        → (r : MemoryRow v.Float v.Json) × (schema.memories.find db'.memories id ≡ some r)
          × (entry ≡ to_record v r)
          × (r.content ≡ content)
          × (db'.tenants ≡ db.tenants)
    unfolding update
    update_leaves db db' context id content expected now audit_id entry h =
        elim (Option-cases (schema.memories.find db.memories id)) [
          | inl absent ↦ let h' = rw (absent, update_row) at h in absurd (ground arith)
          | inr (old, found) ↦
              elim (Result-cases
                (update_row v schema db context content expected now audit_id (some old))) [
                  | inr (e, failed) ↦ let h' = rw (found, failed) at h in absurd (ground arith)
                  | inl ((db'', entry'), done) ↦
                      let h' = rw (found, done) at h in
                      let same : db'' ≡ db' = ground arith in
                      let same_entry : entry' ≡ entry = ground arith in
                      let (_, _, made) =
                        update_row_inv v schema db db'' context content expected now audit_id old
                          entry' done in
                      let row = revised v schema old content now in
                      let (m, _, told) =
                        revise_inv v schema db db'' context row old.provenance "memory.update"
                          (v.object (("version", v.number (old.version + 1)) ∷ [])) now audit_id
                          entry' made in
                      let own : old.id ≡ id =
                        schema.memories.key_of_find db.memories id old found in
                      let at : schema.memories.find db''.memories id ≡ some row =
                        rw (m, schema.memories.find-put)
                          (unfold revised in rw (own, eq_refl) refl) in
                      (
                        row,
                        rw (← same) at,
                        rw (← same_entry) told,
                        unfold revised in refl,
                        rw (← same) (unfold revise write_audit in ground (arith, made)),
                      )
                ]
        ]

    -- A memory keeps its id, the digest of its first content, when it is updated: once an update of the
    -- memory under the digest of a content has succeeded, a store of that same content by the tenant
    -- succeeds too, but returns the updated memory with its other content, and changes neither memories
    -- nor versions. The tenant is known, and the identifier of the second audit event fresh.
    pub store-update :
        (qdrant_available : Bool) (db db' : Db v schema) (context : TenantContext)
        (content content' memory_type : String) (metadata : Option (Dict v.Json))
        (expected now now' : ℕ) (evidence_id audit_id audit_id' : String) (known : TenantRow)
        (entry : MemoryRecord v.Float v.Json)
        → schema.tenants.find db.tenants context.tenant_id ≡ some known
        → update v schema db context
            (digest_of v context.tenant_id (or_else metadata []) memory_type content)
            content'
            expected
            now
            audit_id
          ≡ (db', ok entry)
        → schema.audit.find db'.audit audit_id' ≡ none
        → let (db'', result) =
            store v schema qdrant_available db' context content memory_type metadata now'
              evidence_id audit_id' in
          (result ≡ ok entry)
          × (entry.content ≡ content')
          × (db''.memories ≡ db'.memories)
          × (db''.versions ≡ db'.versions)
    store-update qdrant_available db db' context content content' memory_type metadata expected now
          now' evidence_id audit_id audit_id' known entry there updated fresh =
        let (r, found, told, text, same) =
          update_leaves db db' context
            (digest_of v context.tenant_id (or_else metadata []) memory_type content) content'
            expected now audit_id entry updated in
        let (given, memories, versions) =
          store-taken qdrant_available db' context content memory_type metadata now' evidence_id
            audit_id' known r (rw same there) found fresh in
        (
          given ∙ ap ok (sym told),
          ap (λ (e : MemoryRecord v.Float v.Json). e.content) told ∙ (unfold to_record in text),
          memories,
          versions,
        )

    -- Two tenants share memories where one tenant's id and namespace read like the other's: the store of
    -- a tenant `t:n` with namespace `m` gives the memory of tenant `t` with namespace `n:m`, whose id is
    -- the same digest, with a fresh identifier for the audit event.
    pub store_crosses_tenants :
        (qdrant_available : Bool) (db : Db v schema) (context : TenantContext)
        (t n m content memory_type : String) (metadata : Dict v.Json)
        (metadata' : Option (Dict v.Json)) (now : ℕ) (evidence_id audit_id : String)
        (known : TenantRow) (r : MemoryRow v.Float v.Json)
        → text_at v metadata "namespace" "default" ≡ n +++ ":" +++ m
        → schema.memories.find db.memories (digest_of v t metadata memory_type content) ≡ some r
        → context.tenant_id ≡ t +++ ":" +++ n
        → text_at v (or_else metadata' []) "namespace" "default" ≡ m
        → schema.tenants.find db.tenants context.tenant_id ≡ some known
        → schema.audit.find db.audit audit_id ≡ none
        → (store v schema qdrant_available db context content memory_type metadata' now evidence_id
            audit_id).1
          ≡ ok (to_record v r)
    store_crosses_tenants qdrant_available db context t n m content memory_type metadata metadata'
          now evidence_id audit_id known r space found own space' there fresh =
        let same : digest_of v context.tenant_id (or_else metadata' []) memory_type content
            ≡ digest_of v t metadata memory_type content =
          rw own (
            digest_of-ambiguous t n m memory_type content metadata (or_else metadata' []) space
              space') in
        (store-taken qdrant_available db context content memory_type metadata' now evidence_id
          audit_id known r there (ap (schema.memories.find db.memories) same ∙ found) fresh).0
