-- ===== src/Orchestration/Leases/Recovered.antt =====
-- What `recover_expired_leases` promises of each row (agi_platform/orchestration.py), apart from how it is
-- computed.
use agi_platform.Prelude.{
  ℕ, ◌≤◌, ◌<◌, String, ◌==◌, true, false, Option, none, some, if◌then◌else◌, leb, ◌≡◌, ◌≢◌, ◌⊎◌,
  inl, inr, arith, eq_iff, Bool-cases, Option-cases,
}
use agi_platform.Orchestration.Tables.{WorkflowTaskRow}
use agi_platform.Orchestration.Leases.{is_expired, released}

-- No lease of the row ended before the time.
abbrev IsLasting : ℕ → Option ℕ → Type 0
IsLasting now ends = (ends ≡ none) ⊎ ((u : ℕ) × (ends ≡ some u) × (now ≤ u))

-- What stands under a key before and after a recovery, of one tenant at one time.
pub data Recovered (tenant : String) (now : ℕ)
    : Option WorkflowTaskRow → Option WorkflowTaskRow → Type 0 where
  still_none : Recovered tenant now none none
  retried :
      (r : WorkflowTaskRow) (u : ℕ)
      → r.tenant_id ≡ tenant
      → r.status ≡ "RUNNING"
      → r.lease_expires_at ≡ some u
      → u < now
      → r.attempts < r.max_attempts
      → Recovered tenant now
          (some r)
          (some (record r { status = "PENDING"; lease_owner = none; lease_expires_at = none }))
  times_out :
      (r : WorkflowTaskRow) (u : ℕ)
      → r.tenant_id ≡ tenant
      → r.status ≡ "RUNNING"
      → r.lease_expires_at ≡ some u
      → u < now
      → r.max_attempts ≤ r.attempts
      → Recovered tenant now
          (some r)
          (some (record r { status = "TIMED_OUT"; lease_owner = none; lease_expires_at = none }))
  untouched :
      (r : WorkflowTaskRow)
      → (r.tenant_id ≢ tenant) ⊎ (r.status ≢ "RUNNING") ⊎ IsLasting now r.lease_expires_at
      → Recovered tenant now (some r) (some r)

-- A row after a recovery, as the code computes it.
abbrev pub recovered : String → ℕ → Option WorkflowTaskRow → Option WorkflowTaskRow
recovered tenant now none = none
recovered tenant now (some r) = if is_expired tenant now r then some (released r) else some r

expired-IsOverdue :
    (tenant : String) (now : ℕ) (r : WorkflowTaskRow)
    → is_expired tenant now r ≡ true
    → (u : ℕ) × (r.tenant_id ≡ tenant)
      × (r.status ≡ "RUNNING")
      × (r.lease_expires_at ≡ some u)
      × (u < now)
unfolding is_expired
expired-IsOverdue tenant now r h = elim (Option-cases r.lease_expires_at) [
  | inl never ↦ absurd (ground arith)
  | inr (u, ends) ↦ (
    u,
    ground (arith, eq_iff r.tenant_id tenant),
    ground (arith, eq_iff r.status "RUNNING"),
    ends,
    ground (arith, ends),
  )
]

not_expired-IsLasting :
    (tenant : String) (now : ℕ) (r : WorkflowTaskRow)
    → is_expired tenant now r ≡ false
    → (r.tenant_id ≢ tenant) ⊎ (r.status ≢ "RUNNING") ⊎ IsLasting now r.lease_expires_at
unfolding is_expired
not_expired-IsLasting tenant now r h = elim (Bool-cases (r.tenant_id == tenant)) [
  | inr foreign ↦ inl (λ e. ground (arith, eq_iff r.tenant_id tenant))
  | inl own ↦ elim (Bool-cases (r.status == "RUNNING")) [
    | inr idle ↦ inr (inl (λ e. ground (arith, eq_iff r.status "RUNNING")))
    | inl runs ↦ elim (Option-cases r.lease_expires_at) [
      | inl never ↦ inr (inr (inl never))
      | inr (u, ends) ↦ inr (inr (inr (u, ends, ground (arith, ends))))
    ]
  ]
]

pub recovered-Recovered :
    (tenant : String) (now : ℕ) (o : Option WorkflowTaskRow)
    → Recovered tenant now o (recovered tenant now o)
unfolding released
recovered-Recovered tenant now none = still_none
recovered-Recovered tenant now (some r) = elim (Bool-cases (is_expired tenant now r)) [
  | inr lasting ↦ rw lasting (untouched r (not_expired-IsLasting tenant now r lasting))
  | inl expired ↦
      let (u, own, runs, ends, over) = expired-IsOverdue tenant now r expired in
      elim (Bool-cases (leb r.max_attempts r.attempts)) [
        | inl used ↦ rw (expired, used) (times_out r u own runs ends over (ground (arith, used)))
        | inr left ↦ rw (expired, left) (retried r u own runs ends over (ground (arith, left)))
      ]
]
