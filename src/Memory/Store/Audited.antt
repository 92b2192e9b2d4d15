-- ===== src/Memory/Store/Audited.antt =====
-- A fresh identifier lets an audit event be written (agi_platform/memory/core.py).
use agi_platform.Prelude.{ℕ, String, none, ok, ◌≡◌, refl}
use agi_platform.Security.Permissions.{TenantContext}
use agi_platform.Database.Rows.{AuditEventRow}
use agi_platform.Memory.Values.{Values}
use agi_platform.Memory.Tables.{Schema, Db}
use agi_platform.Memory.Store.{write_audit}

module _ (v : Values) (schema : Schema v) where
  pub write_audit_ok :
      (db : Db v schema) (context : TenantContext) (action target : String) (metadata : v.Json)
      (now : ℕ) (audit_id : String)
      → schema.audit.find db.audit audit_id ≡ none
      → (audit : schema.audit.Rows) × (write_audit v schema db context action target metadata now
            audit_id
          ≡ ok (record db { audit = audit }))
  unfolding write_audit
  write_audit_ok db context action target metadata now audit_id fresh =
      let event : AuditEventRow v.Float v.Json = record {
        id = audit_id;
        tenant_id = context.tenant_id;
        actor = context.identity.subject;
        action = action;
        target = target;
        result = "succeeded";
        metadata_json = metadata;
        created_at = now;
      } in
      (schema.audit.put db.audit event, rw (schema.audit.insert_lem, fresh) refl)
