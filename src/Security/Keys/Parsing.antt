-- ===== src/Security/Keys/Parsing.antt =====
-- What `parse_api_keys` stores (agi_platform/security.py).
use agi_platform.Prelude.{
  ℕ, ◌+◌, String, ◌==◌, List, [], ◌∷◌, map, Option, none, some, or_else, ok, Dict, get, put,
  get-put, ◌≡◌, inl, inr, refl, subst, arith, eq_iff, Bool-cases, Option-cases, Result-cases, All,
}
use agi_platform.Security.Permissions.{normalize_permission, normalize_permission_idem}
use agi_platform.Security.Keys.{
  ApiKeyRecord, KeyItem, RawKeys, unset, not_a_list, key_items, item_record, parse_item,
  parse_items, legacy_record, add_legacy, parse_api_keys,
}

-- A stored record stands under its own hash, and its permissions are in normal form.
pub record IsStored (k : String) (r : ApiKeyRecord) : Type 0 where
  pub under_hash : r.key_hash ≡ k
  pub normal : All (λ p. normalize_permission p ≡ p) r.permissions

abbrev pub AllStored : Dict ApiKeyRecord → Type 0
AllStored d = (k : String) (r : ApiKeyRecord) → get d k ≡ some r → IsStored k r

All-normalize :
    (ps : List String) → All (λ p. normalize_permission p ≡ p) (map normalize_permission ps)
All-normalize [] = tt
All-normalize (p ∷ ps) = (normalize_permission_idem p, All-normalize ps)

AllStored-put :
    (d : Dict ApiKeyRecord) (r : ApiKeyRecord)
    → AllStored d
    → IsStored r.key_hash r
    → AllStored (put d r.key_hash r)
AllStored-put d r h new k s e = elim (Bool-cases (r.key_hash == k)) [
  | inl same ↦
      let at_key : r.key_hash ≡ k = (eq_iff r.key_hash k).0 same in
      let found : r ≡ s = ground (arith, get-put d r.key_hash k r) in
      subst (λ x. IsStored x s) at_key (subst (IsStored r.key_hash) found new)
  | inr other ↦ h k s (ground (arith, get-put d r.key_hash k r))
]

module _ (hash : String → String) where
  parse_item-IsStored :
      (index : ℕ) (item : KeyItem) (r : ApiKeyRecord)
      → parse_item hash index item ≡ ok r
      → IsStored r.key_hash r
  unfolding parse_item
  parse_item-IsStored index item r h = elim (Option-cases item.tenant_id) [
    | inl missing ↦ ground arith
    | inr (t, given) ↦
        let e : item_record hash index item t ≡ r = ground arith in
        subst (λ x. IsStored x.key_hash x) e
          (record { under_hash = refl; normal = All-normalize (or_else item.permissions []) })
  ]

  parse_items-AllStored :
      (index : ℕ) (l : List KeyItem) (d d' : Dict ApiKeyRecord)
      → AllStored d
      → parse_items hash index l d ≡ ok d'
      → AllStored d'
  unfolding parse_items
  parse_items-AllStored index [] d d' h e =
      let same : d ≡ d' = cc in subst (λ x. AllStored x) same h
  parse_items-AllStored index (item ∷ l) d d' h e =
      elim (Result-cases (parse_item hash index item)) [
        | inl (r, p) ↦
            parse_items-AllStored (index + 1) l (put d r.key_hash r) d'
              (AllStored-put d r h (parse_item-IsStored index item r p)) (rw (p, parse_items) at e)
        | inr (x, p) ↦ λ k r g. ground arith
      ]

  add_legacy-AllStored :
      (key : Option String) (d : Dict ApiKeyRecord)
      → AllStored d
      → AllStored (add_legacy hash key d)
  unfolding add_legacy normalize_permission get
  add_legacy-AllStored none d h = h
  add_legacy-AllStored (some key) d h = elim (Bool-cases (key == "")) [
    | inl empty ↦ rw empty h
    | inr given ↦ elim (Option-cases (get d (hash key))) [
      | inl unknown ↦
          rw (given, unknown)
            (AllStored-put d (legacy_record hash key) h
              (record { under_hash = refl; normal = (refl, tt) }))
      | inr (r, known) ↦ rw (given, known) h
    ]
  ]

  AllStored-empty : AllStored []
  unfolding get
  AllStored-empty k r e = cc

  parse_api_keys-AllStored :
      (raw : RawKeys) (legacy_key : Option String) (d : Dict ApiKeyRecord)
      → parse_api_keys hash raw legacy_key ≡ ok d
      → AllStored d
  unfolding parse_api_keys
  parse_api_keys-AllStored unset legacy_key d h =
      let same : add_legacy hash legacy_key [] ≡ d = cc in
      subst (λ x. AllStored x) same (add_legacy-AllStored legacy_key [] AllStored-empty)
  parse_api_keys-AllStored not_a_list legacy_key d h = cc
  parse_api_keys-AllStored (key_items l) legacy_key d h =
      elim (Result-cases (parse_items hash 0 l [])) [
        | inl (d', p) ↦
            let same : add_legacy hash legacy_key d' ≡ d = ground arith in
            subst (λ x. AllStored x) same
              (add_legacy-AllStored legacy_key d'
                (parse_items-AllStored 0 l [] d' AllStored-empty p))
        | inr (x, p) ↦ λ k r g. ground arith
      ]

-- Every record that `parse_api_keys` stores, the legacy key's included, stands under its own hash,
-- and each of its permissions is in normal form, so that a legacy spelling in AGI_API_KEYS is
-- stored under its present name.
parse_api_keys-IsStored :
    (hash : String → String) (raw : RawKeys) (legacy_key : Option String)
    (records : Dict ApiKeyRecord) (k : String) (r : ApiKeyRecord)
    → parse_api_keys hash raw legacy_key ≡ ok records
    → get records k ≡ some r
    → IsStored k r
parse_api_keys-IsStored hash raw legacy_key records k r h found =
    parse_api_keys-AllStored hash raw legacy_key records h k r found
