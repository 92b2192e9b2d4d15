-- ===== src/Security/Policy/Decisions.antt =====
-- When `PolicyEngine.authorize` allows, and when it asks for an audit (agi_platform/security.py).
use agi_platform.Prelude.{
  String, Bool, true, ◌≡◌, ◌↔◌, Option, none, some, contains, arith, eq_iff, eq_refl, ◌⊎◌,
  contains_of_All, refl,
}
use agi_platform.Security.Permissions.{
  permissions, high_risk_actions, governance_actions, normalize_permission,
  normalize_permission_idem, Identity, can, TenantContext,
}
use agi_platform.Security.Policy.{authorize}

-- What the policy asks for: one tenant throughout, a known action that the identity holds, by name
-- or by "*", and an approval if the action is of high risk.
pub record Permitted (subject : Identity) (tenant : TenantContext) (action : String)
    (resource_tenant : Option String) (approved : Bool) : Type 0 where
  pub same_tenant : subject.tenant_id ≡ tenant.tenant_id
  pub known : contains (normalize_permission action) permissions ≡ true
  pub own_resource : (t : String) → resource_tenant ≡ some t → t ≡ tenant.tenant_id
  pub held :
      (contains "*" subject.permissions ≡ true)
      ⊎ (contains (normalize_permission action) subject.permissions ≡ true)
  pub approval : contains (normalize_permission action) high_risk_actions ≡ true → approved ≡ true

module _ (subject : Identity) (tenant : TenantContext) (action : String) (approved : Bool) where
  pub Permitted-of_allowed :
      (resource_tenant : Option String)
      → (authorize (some subject) (some tenant) action resource_tenant approved).allowed ≡ true
      → Permitted subject tenant action resource_tenant approved
  unfolding authorize can
  Permitted-of_allowed none h = record {
    same_tenant = ground (arith, eq_iff subject.tenant_id tenant.tenant_id);
    known = ground arith;
    own_resource = λ t e. cc;
    held = ground (arith, normalize_permission_idem action);
    approval = λ risk. ground arith;
  }
  Permitted-of_allowed (some r) h = record {
    same_tenant = ground (arith, eq_iff subject.tenant_id tenant.tenant_id);
    known = ground arith;
    own_resource = λ t e. ground (arith, eq_iff r tenant.tenant_id);
    held = ground (arith, normalize_permission_idem action);
    approval = λ risk. ground arith;
  }

  allowed_of_Permitted :
      (resource_tenant : Option String)
      → Permitted subject tenant action resource_tenant approved
      → (authorize (some subject) (some tenant) action resource_tenant approved).allowed ≡ true
  unfolding authorize can
  allowed_of_Permitted none h = ground (
    arith,
    eq_iff subject.tenant_id tenant.tenant_id,
    eq_refl tenant.tenant_id,
    normalize_permission_idem action,
  )
  allowed_of_Permitted (some r) h = ground (
    arith,
    eq_iff subject.tenant_id tenant.tenant_id,
    h.own_resource r refl,
    eq_iff r tenant.tenant_id,
    normalize_permission_idem action,
  )

-- `authorize` allows exactly when a subject and a tenant are given and what the policy asks for holds
-- of them, of the action, of the tenant that the resource names, if it names one, and of the approval.
pub authorize-allowed_iff :
    (subject : Option Identity) (tenant : Option TenantContext) (action : String)
    (resource_tenant : Option String) (approved : Bool)
    → ((authorize subject tenant action resource_tenant approved).allowed ≡ true) ↔ (
        (s : Identity) × (t : TenantContext) × (subject ≡ some s)
        × (tenant ≡ some t)
        × Permitted s t action resource_tenant approved)
unfolding authorize
authorize-allowed_iff none tenant action resource_tenant approved = (λ h. cc, λ (s, t, e, f, p). cc)
authorize-allowed_iff (some s) none action resource_tenant approved =
    (λ h. cc, λ (s', t, e, f, p). cc)
authorize-allowed_iff (some s) (some t) action resource_tenant approved = (
  λ h. (s, t, refl, refl, Permitted-of_allowed s t action approved resource_tenant h),
  λ (s', t', e, f, p).
      let es : s ≡ s' = cc in
      let et : t ≡ t' = cc in
      rw (es, et) (allowed_of_Permitted s' t' action approved resource_tenant p),
)

-- A governance action is a known action.
governance_known :
    (action : String)
    → contains action governance_actions ≡ true
    → contains action permissions ≡ true
unfolding contains
governance_known action h = contains_of_All action governance_actions permissions (search) h

-- An audit is asked for exactly when subject and tenant are given, agree on the tenant, and the
-- action is one of governance: for refusals and for permissions alike.
pub authorize-audit_required_iff :
    (subject : Option Identity) (tenant : Option TenantContext) (action : String)
    (resource_tenant : Option String) (approved : Bool)
    → ((authorize subject tenant action resource_tenant approved).audit_required ≡ true) ↔ (
        (s : Identity) × (t : TenantContext) × (subject ≡ some s)
        × (tenant ≡ some t)
        × (s.tenant_id ≡ t.tenant_id)
        × (contains (normalize_permission action) governance_actions ≡ true))
unfolding authorize
authorize-audit_required_iff none tenant action resource_tenant approved =
    (λ h. cc, λ (s, t, e, f, p, q). cc)
authorize-audit_required_iff (some s) none action resource_tenant approved =
    (λ h. cc, λ (s', t, e, f, p, q). cc)
authorize-audit_required_iff (some s) (some t) action resource_tenant approved = (
  λ h. (s, t, refl, refl, ground (arith, eq_iff s.tenant_id t.tenant_id), ground arith),
  λ (s', t', e, f, same, governed).
      let es : s ≡ s' = cc in
      let et : t ≡ t' = cc in
      rw (es, et)
        (ground (
          arith,
          eq_iff s'.tenant_id t'.tenant_id,
          governance_known (normalize_permission action) governed,
        )),
)
