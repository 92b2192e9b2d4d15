-- ===== src/Memory/Changes.antt =====
-- What a call of the memory does to memories and versions (agi_platform/memory/core.py): nothing, or it
-- writes one row of its tenant and records it.
pub mod Storing
pub mod Fresh
use agi_platform.Prelude.{
  ℕ, ◌+◌, String, ◌==◌, List, [], ◌∷◌, ◌++◌, Bool, true, false, not, Option, none, some, eqb,
  or_else, Dict, Result, Result-cases, ok, raise, ◌>>=◌, or_raise, bind_inv, or_raise_inv, if_inv,
  unless_inv, if◌then◌else◌, ◌≡◌, ◌≢◌, refl, ap, ◌∙◌, eq_iff, arith, Option-cases, inl, inr,
}
use agi_platform.Security.Permissions.{TenantContext}
use agi_platform.Database.{select}
use agi_platform.Database.Rows.{MemoryRow, MemoryVersionRow}
use agi_platform.Memory.Values.{Values, MemoryError, key_error, MemoryRecord}
use agi_platform.Memory.Tables.{Schema, Db, is_version, add_version, ensure_tenant}
use agi_platform.Memory.Entries.{to_record, version_of, new_row, digest_of, confidence_of}
use agi_platform.Memory.Store.{committed, write_audit, row_of_digest, store}
use agi_platform.Memory.Revision.{revise, revised, update_row, update, rollback_row, rollback}

-- The call's database is the old one, or a transaction gave it.
pub committed-cases {ℓ κ μ} :
    {D : Type ℓ} {A : Type κ} (P : D → Type μ) (db : D) (m : Result MemoryError (D × A))
    → P db
    → ((db' : D) (a : A) → m ≡ ok (db', a) → P db')
    → P (committed db m).0
committed-cases P db (ok (db', a)) h f = f db' a refl
committed-cases P db (raise e) h f = h

module _ (v : Values) where
  -- The entry records the row.
  pub record Describes (x : MemoryVersionRow v.Float v.Json) (row : MemoryRow v.Float v.Json)
      : Type 0 where
    pub tenant : x.tenant_id ≡ row.tenant_id
    pub memory : x.memory_id ≡ row.id
    pub number : x.version ≡ row.version
    pub text : x.content ≡ row.content

  -- The row is new, or the next version of the old one.
  abbrev pub Follows : Option (MemoryRow v.Float v.Json) → MemoryRow v.Float v.Json → Type 0
  Follows none row = row.version ≡ 1
  Follows (some old) row = (row.tenant_id ≡ old.tenant_id) × (row.version ≡ old.version + 1)

  pub add_version_inv :
      (versions versions' : List (MemoryVersionRow v.Float v.Json))
      (x : MemoryVersionRow v.Float v.Json)
      → add_version v versions x ≡ some versions'
      → versions' ≡ versions ++ (x ∷ [])
  unfolding add_version
  add_version_inv versions versions' x h = ground arith

  module _ (schema : Schema v) where
    -- The call wrote one row, of its tenant.
    pub record Written (tenant : String) (db db' : Db v schema) : Type 0 where
      pub row : MemoryRow v.Float v.Json
      pub entry : MemoryVersionRow v.Float v.Json
      pub own : row.tenant_id ≡ tenant
      pub describes : Describes entry row
      pub follows : Follows (schema.memories.find db.memories row.id) row
      pub memories : db'.memories ≡ schema.memories.put db.memories row
      pub versions : db'.versions ≡ db.versions ++ (entry ∷ [])

    pub data Change (tenant : String) (db db' : Db v schema) : Type 0 where
      kept : db'.memories ≡ db.memories → db'.versions ≡ db.versions → Change tenant db db'
      written : Written tenant db db' → Change tenant db db'

    pub revise_inv :
        (db db' : Db v schema) (context : TenantContext) (row : MemoryRow v.Float v.Json)
        (provenance : v.Json) (action : String) (metadata : v.Json) (now : ℕ) (audit_id : String)
        (entry : MemoryRecord v.Float v.Json)
        → revise v schema db context row provenance action metadata now audit_id ≡ ok (db', entry)
        → (db'.memories ≡ schema.memories.put db.memories row)
          × (db'.versions
              ≡ db.versions ++ (record (version_of v row now) { provenance = provenance } ∷ []))
          × (entry ≡ to_record v row)
    unfolding revise write_audit add_version
    revise_inv db db' context row provenance action metadata now audit_id entry h = ground arith

    revise-Change :
        (db db' : Db v schema) (context : TenantContext) (id : String)
        (old : MemoryRow v.Float v.Json) (content : String) (provenance : v.Json) (action : String)
        (metadata : v.Json) (now : ℕ) (audit_id : String) (entry : MemoryRecord v.Float v.Json)
        → schema.memories.find db.memories id ≡ some old
        → old.tenant_id ≡ context.tenant_id
        → revise v schema db context
            (revised v schema old content now)
            provenance
            action
            metadata
            now
            audit_id
          ≡ ok (db', entry)
        → Change context.tenant_id db db'
    unfolding revised version_of
    revise-Change db db' context id old content provenance action metadata now audit_id entry found
          own h =
        let row = revised v schema old content now in
        let (m, vs, _) =
          revise_inv db db' context row provenance action metadata now audit_id entry h in
        let there : schema.memories.find db.memories row.id ≡ some old =
          ap (schema.memories.find db.memories)
            (schema.memories.key_of_find db.memories id old found)
          ∙ found in
        written (record {
          row = row;
          entry = record (version_of v row now) { provenance = provenance };
          own = own;
          describes = record { tenant = refl; memory = refl; number = refl; text = refl };
          follows = rw there (refl, refl);
          memories = m;
          versions = vs;
        })

    pub update_row_inv :
        (db db' : Db v schema) (context : TenantContext) (content : String) (expected now : ℕ)
        (audit_id : String) (old : MemoryRow v.Float v.Json) (entry : MemoryRecord v.Float v.Json)
        → update_row v schema db context content expected now audit_id (some old) ≡ ok (db', entry)
        → (old.tenant_id ≡ context.tenant_id)
          × (old.version ≡ expected)
          × (revise v schema db context
                (revised v schema old content now)
                old.provenance
                "memory.update"
                (v.object (("version", v.number (old.version + 1)) ∷ []))
                now
                audit_id
              ≡ ok (db', entry))
    unfolding update_row
    update_row_inv db db' context content expected now audit_id old entry h =
        ground (arith, eq_iff old.tenant_id context.tenant_id)

    rollback_row_inv :
        (db db' : Db v schema) (context : TenantContext) (version now : ℕ) (audit_id : String)
        (old : MemoryRow v.Float v.Json) (targets : List (MemoryVersionRow v.Float v.Json))
        (entry : MemoryRecord v.Float v.Json)
        → rollback_row v schema db context version now audit_id (some old) targets ≡ ok (db', entry)
        → (old.tenant_id ≡ context.tenant_id)
          × ((x : MemoryVersionRow v.Float v.Json) × (targets ≡ x ∷ [])
              × (revise v schema db context
                    (revised v schema old x.content now)
                    x.provenance
                    "memory.rollback"
                    (v.object (("to_version", v.number version) ∷ []))
                    now
                    audit_id
                  ≡ ok (db', entry)))
    unfolding rollback_row
    rollback_row_inv db db' context version now audit_id old [] entry h = cc
    rollback_row_inv db db' context version now audit_id old (x ∷ y ∷ more) entry h = cc
    rollback_row_inv db db' context version now audit_id old (x ∷ []) entry h =
        let (same, rest) = unless_inv (old.tenant_id == context.tenant_id) _ _ _ h in
        ((eq_iff old.tenant_id context.tenant_id).0 same, (x, refl, rest))

    pub update-Change :
        (db : Db v schema) (context : TenantContext) (id content : String) (expected now : ℕ)
        (audit_id : String)
        → Change context.tenant_id db
            (update v schema db context id content expected now audit_id).0
    unfolding update
    update-Change db context id content expected now audit_id =
        committed-cases (Change context.tenant_id db) db
          (update_row v schema db context content expected now audit_id
            (schema.memories.find db.memories id))
          (kept refl refl)
          (λ db' entry h. elim (Option-cases (schema.memories.find db.memories id)) [
            | inl absent ↦
                let bad : raise key_error ≡ ok (db', entry) = rw (absent, update_row) at h in cc
            | inr (old, found) ↦
                let (own, _, made) =
                  update_row_inv db db' context content expected now audit_id old entry
                    (rw found at h) in
                revise-Change db db' context id old content old.provenance "memory.update" _ now
                  audit_id entry found own made
          ])

    missing :
        (db : Db v schema) (context : TenantContext) (version now : ℕ) (audit_id : String)
        (targets : List (MemoryVersionRow v.Float v.Json)) (db' : Db v schema)
        (entry : MemoryRecord v.Float v.Json)
        → rollback_row v schema db context version now audit_id none targets ≢ ok (db', entry)
    unfolding rollback_row
    missing db context version now audit_id [] db' entry h = cc
    missing db context version now audit_id (x ∷ []) db' entry h = cc
    missing db context version now audit_id (x ∷ y ∷ more) db' entry h = cc

    pub rollback-Change :
        (db : Db v schema) (context : TenantContext) (id : String) (version now : ℕ)
        (audit_id : String)
        → Change context.tenant_id db (rollback v schema db context id version now audit_id).0
    unfolding rollback
    rollback-Change db context id version now audit_id =
        let targets = select (is_version v context.tenant_id id version) db.versions in
        committed-cases (Change context.tenant_id db) db
          (rollback_row v schema db context version now audit_id
            (schema.memories.find db.memories id) targets)
          (kept refl refl)
          (λ db' entry h. elim (Option-cases (schema.memories.find db.memories id)) [
            | inl absent ↦
                elim (missing db context version now audit_id targets db' entry
                  (rw absent at h)) [ ]
            | inr (old, found) ↦
                let (own, (x, _, made)) =
                  rollback_row_inv db db' context version now audit_id old targets entry
                    (rw found at h) in
                revise-Change db db' context id old x.content x.provenance "memory.rollback" _ now
                  audit_id entry found own made
          ])
