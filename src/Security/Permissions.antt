-- ===== src/Security/Permissions.antt =====
-- Permission names, identities, and what an identity may do (agi_platform/security.py).
use agi_platform.Prelude.{
  String, List, [], ◌∷◌, Bool, ◌||◌, ◌≡◌, subst, none, some, Dict, get, contains, or_else,
  Option-cases, Bool-cases, All, inl, inr, arith, ◌==◌,
}

abbrev pub permissions : List String
permissions =
    "memory.read" ∷ "memory.write" ∷ "memory.delete" ∷ "workflow.read" ∷ "workflow.start"
    ∷ "workflow.cancel" ∷ "github.read" ∷ "github.index" ∷ "graph.read" ∷ "graph.write"
    ∷ "sandbox.execute" ∷ "governance.propose" ∷ "governance.review" ∷ "governance.approve"
    ∷ "evolution.propose" ∷ "evolution.approve" ∷ "evolution.deploy" ∷ "production.mutate" ∷ []

abbrev pub legacy_permission_map : Dict String
legacy_permission_map =
    ("memory:read", "memory.read")
    ∷ ("memory:write", "memory.write")
    ∷ ("workflow:create", "workflow.start")
    ∷ ("workflow:execute", "workflow.start")
    ∷ ("github:read", "github.read")
    ∷ ("github:index", "github.index")
    ∷ ("graph:read", "graph.read")
    ∷ ("graph:write", "graph.write")
    ∷ ("sandbox:execute", "sandbox.execute")
    ∷ ("governance:propose", "governance.propose")
    ∷ ("governance:approve", "governance.approve")
    ∷ ("evolution:propose", "evolution.propose")
    ∷ []

abbrev pub high_risk_actions : List String
high_risk_actions =
    "sandbox.execute" ∷ "evolution.deploy" ∷ "production.mutate" ∷ "governance.approve" ∷ []

abbrev pub governance_actions : List String
governance_actions = "governance.propose" ∷ "governance.review" ∷ "governance.approve" ∷ []

unfoldable pub normalize_permission : String → String
normalize_permission permission = or_else (get legacy_permission_map permission) permission

pub record Identity : Type 0 where
  pub subject : String
  pub tenant_id : String
  pub roles : List String
  pub permissions : List String
  pub key_id : String
  pub identity_type : String

unfoldable pub can : Identity → String → Bool
unfolding normalize_permission
can identity permission =
    contains "*" identity.permissions
    || contains (normalize_permission permission) identity.permissions

pub record TenantContext : Type 0 where
  pub tenant_id : String
  pub identity : Identity
  pub request_id : String

-- What a lookup finds has what all values of the dictionary have.
All-get :
    (P : String → Type 0) (d : Dict String) (k v : String)
    → All (λ e. P e.1) d
    → get d k ≡ some v
    → P v
unfolding get
All-get P [] k v h e = cc
All-get P ((j, w) ∷ d) k v h e = elim (Bool-cases (j == k)) [
  | inl same ↦ let found : w ≡ v = ground arith in subst P found h.0
  | inr other ↦ All-get P d k v h.1 (rw other at e)
]

-- No new name is a legacy name.
new_name :
    (p q : String) → get legacy_permission_map p ≡ some q → get legacy_permission_map q ≡ none
unfolding get
new_name p q h =
    All-get (λ v. get legacy_permission_map v ≡ none) legacy_permission_map p q (search) h

-- A normalised name is its own normal form.
pub normalize_permission_idem :
    (p : String) → normalize_permission (normalize_permission p) ≡ normalize_permission p
unfolding normalize_permission
normalize_permission_idem p = elim (Option-cases (get legacy_permission_map p)) [
  | inl e ↦ rw (e, e)
  | inr (q, e) ↦ rw (e, new_name p q e)
]
