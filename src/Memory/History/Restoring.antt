-- ===== src/Memory/History/Restoring.antt =====
-- Rollbacks restore, and updates under a stale version fail (agi_platform/memory/core.py).
use agi_platform.Prelude.{
  ℕ, false, ◌+◌, ◌<◌, String, List, [], ◌∷◌, ◌++◌, none, some, Result-cases, Option-cases, ok,
  raise, eqb, ◌≡◌, refl, sym, ap, ◌∙◌, inl, inr, arith, eq_iff, eq_refl,
}
use agi_platform.Security.Permissions.{TenantContext}
use agi_platform.Database.{select}
use agi_platform.Database.Select.{select-append, any_of_select}
use agi_platform.Database.Rows.{MemoryRow, MemoryVersionRow}
use agi_platform.Memory.Values.{Values, MemoryRecord, optimistic_concurrency_error}
use agi_platform.Memory.Tables.{Schema, Db, is_version, add_version}
use agi_platform.Memory.Entries.{to_record, version_of}
use agi_platform.Memory.Store.Audited.{write_audit_ok}
use agi_platform.Memory.Revision.{revise, revised, update, update_row, rollback, rollback_row}
use agi_platform.Memory.Changes.{kept, written, update_row_inv, revise_inv}
use agi_platform.Memory.History.{Op, step, run, step-Change, Recorded}
use agi_platform.Memory.History.Versions.{append_nil, append_assoc, Recorded-run}
use agi_platform.Memory.History.Tenants.{run-found}

module _ (v : Values) (schema : Schema v) where
  -- With a fresh identifier for the audit event, a row is revised.
  revise_ok :
      (db : Db v schema) (context : TenantContext) (row : MemoryRow v.Float v.Json)
      (provenance : v.Json) (action : String) (metadata : v.Json) (now : ℕ) (audit_id : String)
      → schema.audit.find db.audit audit_id ≡ none
      → select (is_version v row.tenant_id row.id row.version) db.versions ≡ []
      → (db' : Db v schema) × (revise v schema db context row provenance action metadata now
            audit_id
          ≡ ok (db', to_record v row))
  unfolding revise add_version version_of
  revise_ok db context row provenance action metadata now audit_id fresh free =
      let entry : MemoryVersionRow v.Float v.Json = record (version_of v row now) {
        provenance = provenance;
      } in
      let written : Db v schema = record db {
        memories = schema.memories.put db.memories row;
        versions = db.versions ++ (entry ∷ []);
      } in
      let (audit, e) =
        write_audit_ok v schema written context action row.id metadata now audit_id fresh in
      (
        record written { audit = audit },
        rw (any_of_select (is_version v row.tenant_id row.id row.version) db.versions free, e) refl,
      )

  rollback_ok :
      (db : Db v schema) (context : TenantContext) (id : String) (r : MemoryRow v.Float v.Json)
      (x : MemoryVersionRow v.Float v.Json) (n now : ℕ) (audit_id : String)
      → Recorded v schema db
      → schema.memories.find db.memories id ≡ some r
      → r.tenant_id ≡ context.tenant_id
      → select (is_version v context.tenant_id id n) db.versions ≡ x ∷ []
      → schema.audit.find db.audit audit_id ≡ none
      → (rollback v schema db context id n now audit_id).1
        ≡ ok (to_record v (revised v schema r x.content now))
  unfolding rollback rollback_row revised
  rollback_ok db context id r x n now audit_id h found own target fresh =
      let free : select (is_version v r.tenant_id r.id (r.version + 1)) db.versions ≡ [] =
        h.above r.id r
          (ap (schema.memories.find db.memories)
              (schema.memories.key_of_find db.memories id r found)
            ∙ found)
          (r.version + 1) (omega arith) in
      let (db', e) =
        revise_ok db context (revised v schema r x.content now) x.provenance "memory.rollback"
          (v.object (("to_version", v.number n) ∷ [])) now audit_id fresh free in
      rw (found, target, (eq_iff r.tenant_id context.tenant_id).1 own, e) refl

  run-versions :
      (db : Db v schema) (ops : List (Op v))
      → (more : List (MemoryVersionRow v.Float v.Json)) × ((run v schema db ops).versions
          ≡ db.versions ++ more)
  unfolding run
  run-versions db [] = ([], sym (append_nil db.versions))
  run-versions db (op ∷ ops) =
      let (more, e) = run-versions (step v schema db op) ops in
      elim (step-Change v schema db op) [
        | kept _ same ↦ (more, e ∙ ap (λ rs. rs ++ more) same)
        | written w ↦ (
          w.entry ∷ more,
          e ∙ ap (λ rs. rs ++ more) w.versions ∙ append_assoc db.versions (w.entry ∷ []) more,
        )
      ]

  -- A tenant's rollback to the version that its memory had, after any calls of `store`, `update` and
  -- `rollback` by anybody, succeeds and gives the content that the memory had, if the versions were
  -- complete and the identifier of the audit event is fresh.
  pub rollback-restores :
      (db : Db v schema) (ops : List (Op v)) (context : TenantContext) (id : String)
      (r : MemoryRow v.Float v.Json) (now : ℕ) (audit_id : String)
      → Recorded v schema db
      → schema.memories.find db.memories id ≡ some r
      → r.tenant_id ≡ context.tenant_id
      → schema.audit.find (run v schema db ops).audit audit_id ≡ none
      → (entry : MemoryRecord v.Float v.Json) × ((rollback v schema
            (run v schema db ops)
            context
            id
            r.version
            now
            audit_id).1
          ≡ ok entry)
        × (entry.content ≡ r.content)
  unfolding to_record revised
  rollback-restores db ops context id r now audit_id h found own fresh =
      let later = Recorded-run v schema db ops h in
      let (x, at_x) = h.recorded id r found r.version (h.positive id r found) (omega arith) in
      let (r', found', own', up) = run-found v schema db ops id r found in
      let (y, at_y) = later.recorded id r' found' r.version (h.positive id r found) up in
      let (more, versions) = run-versions db ops in
      let both : select (is_version v r.tenant_id id r.version) (run v schema db ops).versions
          ≡ x ∷ select (is_version v r.tenant_id id r.version) more =
        rw versions (
          rw (select-append (is_version v r.tenant_id id r.version) db.versions more, at_x) refl) in
      let here : select (is_version v r.tenant_id id r.version) (run v schema db ops).versions
          ≡ y ∷ [] =
        rw own' at at_y in
      let same : x ≡ y = let e = sym both ∙ here in cc in
      (
        to_record v (revised v schema r' y.content now),
        rollback_ok (run v schema db ops) context id r' y r.version now audit_id later found'
            (own' ∙ own) (rw own at here) fresh,
        rw (← same) (h.latest id r x found at_x),
      )

  -- A row of the tenant, with another version than the expected one.
  stale :
      (db : Db v schema) (context : TenantContext) (id content : String) (expected now : ℕ)
      (audit_id : String) (r : MemoryRow v.Float v.Json)
      → schema.memories.find db.memories id ≡ some r
      → r.tenant_id ≡ context.tenant_id
      → expected < r.version
      → (update v schema db context id content expected now audit_id).1
        ≡ raise optimistic_concurrency_error
  unfolding update update_row
  stale db context id content expected now audit_id r found own lt =
      let other : eqb r.version expected ≡ false = ground (arith, lt) in
      rw (found, (eq_iff r.tenant_id context.tenant_id).1 own, other) refl

  -- An update that succeeds writes the next version of its tenant's row.
  updated :
      (db : Db v schema) (context : TenantContext) (id content : String) (expected now : ℕ)
      (audit_id : String) (entry : MemoryRecord v.Float v.Json) (r : MemoryRow v.Float v.Json)
      → schema.memories.find db.memories id ≡ some r
      → (update v schema db context id content expected now audit_id).1 ≡ ok entry
      → (expected < (revised v schema r content now).version)
        × ((revised v schema r content now).tenant_id ≡ context.tenant_id)
        × (schema.memories.find
              (update v schema db context id content expected now audit_id).0.memories
              id
            ≡ some (revised v schema r content now))
  unfolding update revised
  updated db context id content expected now audit_id entry r found done =
      elim (Result-cases (
        update_row v schema db context content expected now audit_id
          (schema.memories.find db.memories id))) [
            | inr (e, failed) ↦ let h = rw failed at done in cc
            | inl ((db', entry'), h) ↦
                let (own, version, made) =
                  update_row_inv v schema db db' context content expected now audit_id r entry'
                    (rw found at h) in
                let (memories, _, _) =
                  revise_inv v schema db db' context (revised v schema r content now) r.provenance
                    "memory.update" _ now audit_id entry' made in
                (
                  omega (arith, version),
                  own,
                  rw
                      (
                        h,
                        memories,
                        schema.memories.find-put,
                        schema.memories.key_of_find db.memories id r found,
                        eq_refl id,
                      )
                      refl,
                )
          ]

  -- Of two updates under one expected version, the second fails as stale, whatever calls come between.
  pub update_once :
      (db : Db v schema) (context other : TenantContext) (id content content' : String)
      (expected now now' : ℕ) (audit_id audit_id' : String) (entry : MemoryRecord v.Float v.Json)
      (ops : List (Op v))
      → (update v schema db context id content expected now audit_id).1 ≡ ok entry
      → other.tenant_id ≡ context.tenant_id
      → (update v schema
          (run v schema (update v schema db context id content expected now audit_id).0 ops)
          other
          id
          content'
          expected
          now'
          audit_id').1
        ≡ raise optimistic_concurrency_error
  unfolding update
  update_once db context other id content content' expected now now' audit_id audit_id' entry ops
        done same =
      elim (Option-cases (schema.memories.find db.memories id)) [
        | inl absent ↦ let h = rw (absent, update_row) at done in cc
        | inr (r, found) ↦
            let (version, own, there) =
              updated db context id content expected now audit_id entry r found done in
            let (r', there', own', up) =
              run-found v schema (update v schema db context id content expected now audit_id).0 ops
                id (revised v schema r content now) there in
            stale (run v schema (update v schema db context id content expected now audit_id).0 ops)
              other id content' expected now' audit_id' r' there' (own' ∙ own ∙ sym same)
              (omega (arith, up, version))
      ]
