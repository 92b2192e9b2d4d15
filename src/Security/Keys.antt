-- ===== src/Security/Keys.antt =====
-- API keys: their records, `parse_api_keys` and `authenticate_request` (agi_platform/security.py).
-- `hash` stands for `hash_api_key`, SHA-256 by the standard library. The items of AGI_API_KEYS are
-- given as `json.loads` returns them, with the entries that the function reads.
pub mod Authentication
pub mod Parsing
use agi_platform.Prelude.{
  ℕ, ◌+◌, String, ◌+++◌, ◌==◌, List, [], ◌∷◌, map, Bool, true, false, not, ◌&&◌, ◌||◌, Option, none,
  some, or_else, is_ascii, ltb, Result, ◌>>=◌, ok, raise, if◌then◌else◌, Dict, get, put, decimal,
}
use agi_platform.Security.Permissions.{normalize_permission, Identity}

pub record ApiKeyRecord : Type 0 where
  pub key_hash : String
  pub subject : String
  pub tenant_id : String
  pub roles : List String
  pub permissions : List String
  pub key_id : String
  pub revoked : Bool
  pub expires_at : Option ℕ
  pub scopes : List String

-- `self.expires_at is None or self.expires_at > now`
not_expired : Option ℕ → ℕ → Bool
not_expired none now = true
not_expired (some t) now = ltb now t

unfoldable pub active : ApiKeyRecord → ℕ → Bool
unfolding not_expired
active r now = not r.revoked && not_expired r.expires_at now

pub record KeyItem : Type 0 where
  pub key : Option String
  pub key_hash : Option String
  pub subject : Option String
  pub tenant_id : Option String
  pub roles : Option (List String)
  pub permissions : Option (List String)
  pub key_id : Option String
  pub revoked : Bool
  pub expires_at : Option ℕ
  pub scopes : Option (List String)

-- `raw`: not set or empty, not a list, or a list of items.
pub data RawKeys : Type 0 where
  unset not_a_list : RawKeys
  key_items : List KeyItem → RawKeys

pub data ParseError : Type 0 where
  value_error key_error : ParseError

-- `x or d` for an optional text: the empty one counts as missing
abbrev pub text_or : Option String → String → String
text_or none d = d
text_or (some s) d = if s == "" then d else s

module _ (hash : String → String) where
  unfoldable pub item_hash : KeyItem → String
  item_hash item = text_or item.key_hash (hash (or_else item.key "None"))

  -- What `str(item["tenant_id"])` leaves to do.
  item_record : ℕ → KeyItem → String → ApiKeyRecord
  unfolding item_hash normalize_permission
  item_record index item tenant = record {
    key_hash = item_hash item;
    subject = text_or item.subject ("service-account-" +++ decimal index);
    tenant_id = tenant;
    roles = or_else item.roles ("service" ∷ []);
    permissions = map normalize_permission (or_else item.permissions []);
    key_id = text_or item.key_id ("key-" +++ decimal index);
    revoked = item.revoked;
    expires_at = item.expires_at;
    scopes = or_else item.scopes [];
  }

  parse_item : ℕ → KeyItem → Result ParseError ApiKeyRecord
  unfolding item_record
  parse_item index item =
      if item_hash item == "" || item_hash item == hash "None"
      then raise value_error
      else elim item.tenant_id [ none ↦ raise key_error | some t ↦ ok (item_record index item t) ]

  -- The loop over the items; `index` is that of `enumerate`.
  parse_items : ℕ → List KeyItem → Dict ApiKeyRecord → Result ParseError (Dict ApiKeyRecord)
  unfolding parse_item
  parse_items index [] records = ok records
  parse_items index (item ∷ items) records = elim (parse_item index item) [
    | raise e ↦ raise e
    | ok r ↦ parse_items (index + 1) items (put records r.key_hash r)
  ]

  unfoldable pub legacy_record : String → ApiKeyRecord
  legacy_record key = record {
    key_hash = hash key;
    subject = "legacy-api-key";
    tenant_id = "legacy";
    roles = "admin" ∷ [];
    permissions = "*" ∷ [];
    key_id = "legacy";
    revoked = false;
    expires_at = none;
    scopes = [];
  }

  -- `records.setdefault(hash_api_key(legacy_key), …)`
  add_legacy : Option String → Dict ApiKeyRecord → Dict ApiKeyRecord
  unfolding legacy_record
  add_legacy none records = records
  add_legacy (some key) records = if key == "" then records else elim (get records (hash key)) [
    | some _ ↦ records
    | none ↦ put records (hash key) (legacy_record key)
  ]

  unfoldable pub parse_api_keys : RawKeys → Option String → Result ParseError (Dict ApiKeyRecord)
  unfolding parse_items add_legacy
  parse_api_keys unset legacy_key = ok (add_legacy legacy_key [])
  parse_api_keys not_a_list legacy_key = raise value_error
  parse_api_keys (key_items l) legacy_key = elim (parse_items 0 l []) [
    | raise e ↦ raise e
    | ok records ↦ ok (add_legacy legacy_key records)
  ]

-- The headers that the authentication reads.
pub record Headers : Type 0 where
  pub x_api_key : Option String
  pub x_tenant_id : Option String

pub data TypeError : Type 0 where
  type_error : TypeError

-- `hmac.compare_digest` of two texts, which raises `TypeError` unless both are ASCII.
unfoldable pub compare_digest : String → String → Result TypeError Bool
compare_digest a b = if is_ascii a && is_ascii b then ok (a == b) else raise type_error

-- `tenant_header and not hmac.compare_digest(tenant_header, record.tenant_id)`
unfoldable pub wrong_tenant : Option String → String → Result TypeError Bool
unfolding compare_digest
wrong_tenant none tenant = ok false
wrong_tenant (some header) tenant =
    if header == "" then ok false else (do same ← compare_digest header tenant; ok (not same))

unfoldable pub identity_of : ApiKeyRecord → Identity
identity_of r = record {
  subject = r.subject;
  tenant_id = r.tenant_id;
  roles = r.roles;
  permissions = r.permissions;
  key_id = r.key_id;
  identity_type = "service_account";
}

-- The record that was found for the key, if any.
authenticate_record : Option ApiKeyRecord → Option String → ℕ → Result TypeError (Option Identity)
unfolding identity_of active wrong_tenant
authenticate_record none tenant_header now = ok none
authenticate_record (some r) tenant_header now = if not (active r now) then ok none else (do
  wrong ← wrong_tenant tenant_header r.tenant_id
  ok (if wrong then none else some (identity_of r)))

unfoldable pub authenticate_request :
    (String → String) → Headers → Dict ApiKeyRecord → ℕ → Result TypeError (Option Identity)
unfolding authenticate_record
authenticate_request hash headers api_keys now = elim headers.x_api_key [
  | none ↦ ok none
  | some raw_key ↦
      if raw_key == ""
      then ok none
      else authenticate_record (get api_keys (hash raw_key)) headers.x_tenant_id now
]
