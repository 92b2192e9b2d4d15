-- ===== src/Security/Keys/Authentication.antt =====
-- Who `authenticate_request` lets in (agi_platform/security.py).
use Prim.Native.Char.{code}
use agi_platform.Prelude.{
  ℕ, ◌<◌, String, ◌==◌, true, false, Option, none, some, is_ascii, Bool-cases, Option-cases,
  Result-cases, ok, Dict, get, ◌≡◌, ◌≢◌, ◌↔◌, ◌⊎◌, ◌∙◌, ap, inl, inr, refl, arith, eq_iff, eq_refl,
}
use agi_platform.Security.Permissions.{Identity}
use agi_platform.Security.Keys.{
  ApiKeyRecord, active, Headers, compare_digest, wrong_tenant, identity_of, authenticate_request,
}

-- All characters of the text are below 128.
unfoldable pub IsAscii : String → Type 0
IsAscii String.[] = Unit
IsAscii (String.◌∷◌ c s) = (code c < 128) × IsAscii s

-- A tenant header that is there and not empty is ASCII and names the tenant.
abbrev pub FitsTenant : Option String → String → Type 0
FitsTenant none tenant = Unit
FitsTenant (some header) tenant = (header ≡ "") ⊎ ((header ≡ tenant) × IsAscii header)

-- The key does not expire, or later than now.
abbrev pub Lasts : ℕ → Option ℕ → Type 0
Lasts now ends = (ends ≡ none) ⊎ ((t : ℕ) × (ends ≡ some t) × (now < t))

-- The record that stands for a request: of a key that is given and not empty, known by its hash,
-- neither revoked nor expired at the time, and of the tenant that the request names, if it names one.
pub record Vouched (hash : String → String) (headers : Headers) (api_keys : Dict ApiKeyRecord)
    (now : ℕ) (raw_key : String) (r : ApiKeyRecord) : Type 0 where
  pub given : headers.x_api_key ≡ some raw_key
  pub not_empty : raw_key ≢ ""
  pub known : get api_keys (hash raw_key) ≡ some r
  pub not_revoked : r.revoked ≡ false
  pub lasts : Lasts now r.expires_at
  pub tenant : FitsTenant headers.x_tenant_id r.tenant_id

-- The identity with the record's subject, tenant, roles, permissions and key id.
abbrev pub IsIdentity : Identity → ApiKeyRecord → Type 0
IsIdentity i r =
    (i.subject ≡ r.subject)
    × (i.tenant_id ≡ r.tenant_id)
    × (i.roles ≡ r.roles)
    × (i.permissions ≡ r.permissions)
    × (i.key_id ≡ r.key_id)
    × (i.identity_type ≡ "service_account")

IsAscii-of_true : (s : String) → is_ascii s ≡ true → IsAscii s
unfolding IsAscii is_ascii
IsAscii-of_true String.[] h = tt
IsAscii-of_true (String.◌∷◌ c s) h = (ground arith, IsAscii-of_true s (ground arith))

is_ascii-of_IsAscii : (s : String) → IsAscii s → is_ascii s ≡ true
unfolding IsAscii is_ascii
is_ascii-of_IsAscii String.[] a = refl
is_ascii-of_IsAscii (String.◌∷◌ c s) (small, a) =
    let rest = is_ascii-of_IsAscii s a in ground (arith, rest)

FitsTenant-of_not_wrong :
    (header : Option String) (tenant : String)
    → wrong_tenant header tenant ≡ ok false
    → FitsTenant header tenant
unfolding wrong_tenant compare_digest
FitsTenant-of_not_wrong none tenant h = tt
FitsTenant-of_not_wrong (some header) tenant h = elim (Bool-cases (header == "")) [
  | inl empty ↦ inl ((eq_iff header "").0 empty)
  | inr given ↦ elim (Bool-cases (is_ascii header)) [
    | inl ascii ↦ inr (ground (arith, eq_iff header tenant), IsAscii-of_true header ascii)
    | inr other ↦ absurd (ground arith)
  ]
]

not_wrong_of_FitsTenant :
    (header : Option String) (tenant : String)
    → FitsTenant header tenant
    → wrong_tenant header tenant ≡ ok false
unfolding wrong_tenant compare_digest
not_wrong_of_FitsTenant none tenant h = refl
not_wrong_of_FitsTenant (some header) tenant (inl empty) = rw empty refl
not_wrong_of_FitsTenant (some header) tenant (inr (same, ascii)) =
    let ascii' = is_ascii-of_IsAscii header ascii in
    rw (← same) (ground (arith, ascii', eq_refl header))

Lasts-of_active :
    (r : ApiKeyRecord) (now : ℕ)
    → active r now ≡ true
    → (r.revoked ≡ false) × Lasts now r.expires_at
unfolding active
Lasts-of_active r now h = (
  ground arith,
  elim (Option-cases r.expires_at) [
    | inl never ↦ inl never
    | inr (t, ends) ↦ inr (t, ends, ground (arith, ends))
  ],
)

active_of_Lasts :
    (r : ApiKeyRecord) (now : ℕ) → r.revoked ≡ false → Lasts now r.expires_at → active r now ≡ true
unfolding active
active_of_Lasts r now kept (inl never) = rw (kept, never) refl
active_of_Lasts r now kept (inr (t, ends, later)) = rw (kept, ends) (ground (arith, later))

IsIdentity-of_eq : (i : Identity) (r : ApiKeyRecord) → identity_of r ≡ i → IsIdentity i r
unfolding identity_of
IsIdentity-of_eq i r h = rw (← h) (refl, refl, refl, refl, refl, refl)

eq_of_IsIdentity : (i : Identity) (r : ApiKeyRecord) → IsIdentity i r → i ≡ identity_of r
unfolding identity_of
eq_of_IsIdentity i r h = ground (arith, h)

module _ (hash : String → String) (headers : Headers) (api_keys : Dict ApiKeyRecord) (now : ℕ) where
  Vouched-of_authenticated :
      (i : Identity)
      → authenticate_request hash headers api_keys now ≡ ok (some i)
      → (raw_key : String) × (r : ApiKeyRecord) × IsIdentity i r
        × Vouched hash headers api_keys now raw_key r
  unfolding authenticate_request
  Vouched-of_authenticated i h = elim (Option-cases headers.x_api_key) [
    | inl missing ↦ absurd (ground arith)
    | inr (raw_key, given) ↦ elim (Option-cases (get api_keys (hash raw_key))) [
      | inl unknown ↦ absurd (ground arith)
      | inr (r, known) ↦ elim (Result-cases (wrong_tenant headers.x_tenant_id r.tenant_id)) [
        | inr (e, failed) ↦ absurd (ground arith)
        | inl (wrong, compared) ↦
            let is_active : active r now ≡ true = ground arith in
            let fits : wrong ≡ false = ground arith in
            let (kept, lasts) = Lasts-of_active r now is_active in
            (
              raw_key,
              r,
              IsIdentity-of_eq i r (ground arith),
              record {
                given = given;
                not_empty = ground (arith, eq_iff raw_key "");
                known = known;
                not_revoked = kept;
                lasts = lasts;
                tenant =
                    FitsTenant-of_not_wrong headers.x_tenant_id r.tenant_id (compared ∙ ap ok fits);
              },
            )
      ]
    ]
  ]

  authenticated_of_Vouched :
      (i : Identity) (raw_key : String) (r : ApiKeyRecord)
      → IsIdentity i r
      → Vouched hash headers api_keys now raw_key r
      → authenticate_request hash headers api_keys now ≡ ok (some i)
  unfolding authenticate_request
  authenticated_of_Vouched i raw_key r same v =
      rw
        (
          v.given,
          v.known,
          active_of_Lasts r now v.not_revoked v.lasts,
          not_wrong_of_FitsTenant headers.x_tenant_id r.tenant_id v.tenant,
          eq_of_IsIdentity i r same,
        )
        (ground (arith, eq_iff raw_key "", v.not_empty))

-- `authenticate_request` gives an identity exactly when a record vouches for the request (a key that is
-- given and not empty, known by its hash, neither revoked nor expired, and no tenant header, an empty
-- one, or an ASCII one that is the record's tenant), and then it is the identity with that record's
-- subject, tenant, roles, permissions and key id.
pub authenticate_request-eq-some_iff :
    (hash : String → String) (headers : Headers) (api_keys : Dict ApiKeyRecord) (now : ℕ)
    (i : Identity)
    → (authenticate_request hash headers api_keys now ≡ ok (some i)) ↔ (
        (raw_key : String) × (r : ApiKeyRecord) × IsIdentity i r
        × Vouched hash headers api_keys now raw_key r)
authenticate_request-eq-some_iff hash headers api_keys now i = (
  Vouched-of_authenticated hash headers api_keys now i,
  λ (raw_key, r, same, v). authenticated_of_Vouched hash headers api_keys now i raw_key r same v,
)
