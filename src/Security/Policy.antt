-- ===== src/Security/Policy.antt =====
-- `PolicyEngine.authorize` (agi_platform/security.py). Of the `resource` dictionary the method reads
-- the entry "tenant_id", of `context` whether "approved" is true.
pub mod Decisions
use agi_platform.Prelude.{
  String, List, Bool, true, false, not, ◌&&◌, ◌||◌, ◌==◌, ◌≡◌, Option, none, some, if◌then◌else◌,
  contains, or_else,
}
use agi_platform.Security.Permissions.{
  permissions, high_risk_actions, governance_actions, normalize_permission, Identity, can,
  TenantContext,
}

pub record AuthorizationDecision : Type 0 where
  pub allowed : Bool
  pub reason : String
  pub audit_required : Bool

decision : Bool → String → Bool → AuthorizationDecision
decision allowed reason audit_required = record {
  allowed = allowed;
  reason = reason;
  audit_required = audit_required;
}

-- The tests after the first, for a subject and a tenant that are there and belong together.
decide_in_tenant : Identity → TenantContext → String → Option String → Bool → AuthorizationDecision
unfolding decision can
decide_in_tenant subject tenant action resource_tenant approved =
    let audited = contains action governance_actions in
    if not (contains action permissions)
    then decision false "unknown_action" false
    else if not (or_else resource_tenant tenant.tenant_id == tenant.tenant_id)
    then decision false "resource_tenant_mismatch" audited
    else if not (can subject action)
    then decision false "missing_permission" audited
    else if contains action high_risk_actions && not approved
    then decision false "approval_required" audited
    else decision true "allowed" audited

unfoldable pub authorize :
    Option Identity → Option TenantContext → String → Option String → Bool → AuthorizationDecision
unfolding decide_in_tenant normalize_permission decision
authorize none tenant action resource_tenant approved =
    decision false "missing_or_cross_tenant_context" false
authorize (some subject) none action resource_tenant approved =
    decision false "missing_or_cross_tenant_context" false
authorize (some subject) (some tenant) action resource_tenant approved =
    if not (subject.tenant_id == tenant.tenant_id)
    then decision false "missing_or_cross_tenant_context" false
    else decide_in_tenant subject tenant (normalize_permission action) resource_tenant approved
