-- ===== src/Api/Controls/Admission.antt =====
-- Which requests reach a handler, and what is audited (api/main.py).
use agi_platform.Prelude.{
  ℕ, String, [], ◌∷◌, true, false, none, some, Result, ok, raise, Dict, any, starts_with, contains,
  ◌≡◌, ◌⊎◌, inl, inr, refl, subst, arith, Bool-cases, Option-cases, Result-cases,
}
use agi_platform.Security.Permissions.{normalize_permission, governance_actions, Identity}
use agi_platform.Security.Policy.{AuthorizationDecision, authorize}
use agi_platform.Security.Policy.Decisions.{
  Permitted, Permitted-of_allowed, authorize-audit_required_iff,
}
use agi_platform.Security.Keys.{ApiKeyRecord, type_error, authenticate_request}
use agi_platform.Security.Routes.{route_permission, is_public_path}
use agi_platform.Api.Controls.{
  Request, AuditEvent, Response, RequestState, closed_prefixes, unconfigured, context_of, is_given,
  audit_event, decided, authorized, configured, admit,
}

-- The handler works for an identity that the request's key proves, in that identity's tenant; and if
-- the route needs a permission, the policy permits it, with the approval header as the approval.
pub record WorksFor (hash : String → String) (api_keys : Dict ApiKeyRecord) (request : Request)
    (rid : String) (now : ℕ) (state : RequestState) : Type 0 where
  pub identity : Identity
  pub proved : authenticate_request hash request.headers api_keys now ≡ ok (some identity)
  pub in_tenant : state.tenant_context ≡ some (context_of identity rid)
  pub permitted :
      (permission : String)
      → route_permission request.method request.path ≡ some permission
      → Permitted identity
          (context_of identity rid)
          permission
          (some identity.tenant_id)
          (is_given request.x_approval_id)

-- No key is configured at all, and the route needs no permission or is under no closed prefix.
pub record IsOpen (api_keys : Dict ApiKeyRecord) (request : Request) : Type 0 where
  pub no_keys : api_keys ≡ []
  pub unguarded :
      (route_permission request.method request.path ≡ none)
      ⊎ (any (λ p. starts_with request.path p) closed_prefixes ≡ false)

decided_ok :
    (i : Identity) (request : Request) (rid : String) (now : ℕ) (p : String)
    (d : AuthorizationDecision) (state : RequestState)
    → (decided i request rid now p d).0 ≡ ok state
    → (d.allowed ≡ true) × (state.tenant_context ≡ some (context_of i rid))
unfolding decided
decided_ok i request rid now p d state h = ground arith

Permitted-of_decided :
    (i : Identity) (request : Request) (rid : String) (now : ℕ) (p : String) (state : RequestState)
    → (authorized i request rid now (some p)).0 ≡ ok state
    → (state.tenant_context ≡ some (context_of i rid))
      × Permitted i (context_of i rid) p (some i.tenant_id) (is_given request.x_approval_id)
unfolding authorized
Permitted-of_decided i request rid now p state h =
    let given = is_given request.x_approval_id in
    let d = authorize (some i) (some (context_of i rid)) p (some i.tenant_id) given in
    let (allowed, in_tenant) = decided_ok i request rid now p d state h in
    (in_tenant, Permitted-of_allowed i (context_of i rid) p given (some i.tenant_id) allowed)

unguarded_in_tenant :
    (i : Identity) (request : Request) (rid : String) (now : ℕ) (state : RequestState)
    → (authorized i request rid now none).0 ≡ ok state
    → state.tenant_context ≡ some (context_of i rid)
unfolding authorized
unguarded_in_tenant i request rid now state h = ground arith

works_for :
    (hash : String → String) (api_keys : Dict ApiKeyRecord) (request : Request) (rid : String)
    (now : ℕ) (state : RequestState)
    → (configured (authenticate_request hash request.headers api_keys now) request rid now).0
      ≡ ok state
    → WorksFor hash api_keys request rid now state
unfolding configured
works_for hash api_keys request rid now state h =
    elim (Result-cases (authenticate_request hash request.headers api_keys now)) [
      | inr (type_error, failed) ↦ let h' = rw (failed, configured) at h in absurd (ground arith)
      | inl (none, nobody) ↦ let h' = rw (nobody, configured) at h in absurd (ground arith)
      | inl (some i, proved) ↦
          let h' = rw (proved, configured) at h in
          elim (Option-cases (route_permission request.method request.path)) [
            | inl unguarded ↦ record {
              identity = i;
              proved = proved;
              in_tenant = unguarded_in_tenant i request rid now state (rw unguarded at h');
              permitted = λ p e. cc (unguarded, e);
            }
            | inr (q, guard) ↦
                let (in_tenant, permitted) =
                  Permitted-of_decided i request rid now q state (rw guard at h') in
                record {
                  identity = i;
                  proved = proved;
                  in_tenant = in_tenant;
                  permitted = λ p e.
                      let same : q ≡ p = cc (guard, e) in
                      subst
                        (λ x.
                          Permitted i (context_of i rid) x (some i.tenant_id)
                            (is_given request.x_approval_id))
                        same permitted;
                }
          ]
    ]

IsOpen-of_unconfigured :
    (request : Request) (rid : String) (state : RequestState)
    → unconfigured request rid (route_permission request.method request.path) ≡ ok state
    → (state.tenant_context ≡ none) × IsOpen [] request
unfolding unconfigured
IsOpen-of_unconfigured request rid state h =
    elim (Option-cases (route_permission request.method request.path)) [
      | inl free ↦ (ground arith, record { no_keys = refl; unguarded = inl free })
      | inr (p, guard) ↦ (ground arith, record { no_keys = refl; unguarded = inr (ground arith) })
    ]

-- A request that reaches a handler is for a public path; or no API key is configured, the handler
-- gets no tenant, and the route needs no permission or is under none of the closed prefixes; or the
-- handler works for an identity that the request's key proves, in that identity's tenant, and the
-- policy permits it what the route needs, a high-risk action only with an approval header.
pub admit-Cleared :
    (hash : String → String) (api_keys : Dict ApiKeyRecord) (request : Request) (rid : String)
    (now : ℕ) (state : RequestState)
    → (admit hash api_keys request rid now).0 ≡ ok state
    → ((is_public_path request.path ≡ true) × (state.tenant_context ≡ none))
      ⊎ ((state.tenant_context ≡ none) × IsOpen api_keys request)
      ⊎ WorksFor hash api_keys request rid now state
unfolding admit
admit-Cleared hash [] request rid now state h = elim (Bool-cases (is_public_path request.path)) [
  | inl free ↦ inl (free, ground arith)
  | inr not_public ↦ inr (inl (IsOpen-of_unconfigured request rid state (rw not_public at h)))
]
admit-Cleared hash (k ∷ ks) request rid now state h =
    elim (Bool-cases (is_public_path request.path)) [
      | inl free ↦ inl (free, ground arith)
      | inr not_public ↦
          inr (inr (works_for hash (k ∷ ks) request rid now state (rw not_public at h)))
    ]

abbrev pub verdict : Result Response RequestState → String
verdict (ok _) = "allowed"
verdict (raise _) = "denied"

admit-eq-decided :
    (hash : String → String) (k : String × ApiKeyRecord) (ks : Dict ApiKeyRecord)
    (request : Request) (rid : String) (now : ℕ) (i : Identity) (p : String)
    → is_public_path request.path ≡ false
    → authenticate_request hash request.headers (k ∷ ks) now ≡ ok (some i)
    → route_permission request.method request.path ≡ some p
    → admit hash (k ∷ ks) request rid now
      ≡ decided i request rid now p (
          authorize
            (some i)
            (some (context_of i rid))
            p
            (some i.tenant_id)
            (is_given request.x_approval_id))
unfolding admit
admit-eq-decided hash k ks request rid now i p not_public proved guard =
    rw (not_public, proved, configured, guard)

-- One event of the list tells who asked for what, and how it was decided.
abbrev pub TellsOf :
    Identity → Request → String → String → Result Response RequestState → AuditEvent → Type 0
TellsOf i request rid p outcome e =
    (e.tenant_id ≡ i.tenant_id)
    × (e.subject ≡ i.subject)
    × (e.action ≡ p)
    × (e.resource ≡ request.path)
    × (e.request_id ≡ rid)
    × (e.result ≡ verdict outcome)

audited_once :
    (i : Identity) (request : Request) (rid : String) (now : ℕ) (p : String)
    (d : AuthorizationDecision)
    → d.audit_required ≡ true
    → (e : AuditEvent) × ((decided i request rid now p d).1 ≡ e ∷ [])
      × TellsOf i request rid p (decided i request rid now p d).0 e
unfolding decided
audited_once i request rid now p d audited = (
  audit_event i request rid now p d,
  rw audited,
  (
    refl,
    refl,
    refl,
    refl,
    refl,
    elim (Bool-cases d.allowed) [ inl allowed ↦ rw allowed | inr denied ↦ rw denied ],
  ),
)

-- Each request of an authenticated caller on a route of governance is audited once, under the
-- caller's name and tenant, as allowed or denied just as it was.
audit-admit :
    (hash : String → String) (k : String × ApiKeyRecord) (ks : Dict ApiKeyRecord)
    (request : Request) (rid : String) (now : ℕ) (i : Identity) (p : String)
    → is_public_path request.path ≡ false
    → authenticate_request hash request.headers (k ∷ ks) now ≡ ok (some i)
    → route_permission request.method request.path ≡ some p
    → contains (normalize_permission p) governance_actions ≡ true
    → (e : AuditEvent) × ((admit hash (k ∷ ks) request rid now).1 ≡ e ∷ [])
      × TellsOf i request rid p (admit hash (k ∷ ks) request rid now).0 e
audit-admit hash k ks request rid now i p not_public proved guard governed =
    let given = is_given request.x_approval_id in
    let context = context_of i rid in
    rw (admit-eq-decided hash k ks request rid now i p not_public proved guard) (
      audited_once i request rid now p
        (authorize (some i) (some context) p (some i.tenant_id) given)
        ((authorize-audit_required_iff (some i) (some context) p (some i.tenant_id) given).1
          (i, context, refl, refl, unfold context_of in refl, governed)))
