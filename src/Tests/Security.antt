-- ===== src/Tests/Security.antt =====
-- The theorems on keys, policy, routes and rate limits at concrete requests
-- (agi_platform/security.py).
use agi_platform.Prelude.{
  ℕ, ◌≤◌, String, ◌+++◌, Option, none, some, List, [], ◌∷◌, Bool, true, false, ok, Dict, get, put,
  ◌≡◌, ◌↔◌, refl, arith, contains, decimal, starts_with,
}
use agi_platform.Security.Permissions.{Identity, TenantContext, normalize_permission}
use agi_platform.Security.Policy.{authorize}
use agi_platform.Security.Policy.Decisions.{Permitted, authorize-allowed_iff}
use agi_platform.Security.Keys.{
  ApiKeyRecord, KeyItem, key_items, Headers, item_hash, legacy_record, parse_api_keys, identity_of,
  authenticate_request,
}
use agi_platform.Security.Keys.Authentication.{
  IsIdentity, Vouched, authenticate_request-eq-some_iff,
}
use agi_platform.Security.RateLimiter.{new, Call, admitted, recent}
use agi_platform.Security.RateLimiter.Window.{recent-admitted-le-limit}
use agi_platform.Security.RedisRateLimiter.{RateLimitRule, Command, replies, counted, RedisClient}
use agi_platform.Security.RedisRateLimiter.Limit
use agi_platform.Security.RedisRateLimiter.Limit.{Request}
use agi_platform.Security.Routes.{is_public_path}

abbrev ada : Identity
ada = record {
  subject = "ada";
  tenant_id = "acme";
  roles = "service" ∷ [];
  permissions = "sandbox.execute" ∷ "governance.review" ∷ [];
  key_id = "key-0";
  identity_type = "service_account";
}

abbrev context : TenantContext
context = record { tenant_id = "acme"; identity = ada; request_id = "req-1" }

authorize-allowed_iff_example :
    ((authorize (some ada) (some context) "sandbox:execute" (some "acme") false).allowed ≡ true) ↔ (
      (s : Identity) × (t : TenantContext) × (some ada ≡ some s)
      × (some context ≡ some t)
      × Permitted s t "sandbox:execute" (some "acme") false)
authorize-allowed_iff_example =
    authorize-allowed_iff (some ada) (some context) "sandbox:execute" (some "acme") false

-- A hash that can be read.
abbrev pub hash : String → String
hash key = "h:" +++ key

abbrev stored : Dict ApiKeyRecord
stored = ("h:legacy-key", legacy_record hash "legacy-key") ∷ []

abbrev headers : Headers
headers = record { x_api_key = some "legacy-key"; x_tenant_id = some "legacy" }

authenticate_request-eq-some_iff_example :
    (authenticate_request hash headers stored 100
      ≡ ok (some (identity_of (legacy_record hash "legacy-key"))))
    ↔ ((raw_key : String) × (r : ApiKeyRecord) × IsIdentity
          (identity_of (legacy_record hash "legacy-key"))
          r
        × Vouched hash headers stored 100 raw_key r)
authenticate_request-eq-some_iff_example =
    authenticate_request-eq-some_iff hash headers stored 100
      (identity_of (legacy_record hash "legacy-key"))

abbrev item : KeyItem
item = record {
  key = some "secret";
  key_hash = none;
  subject = some "ada";
  tenant_id = some "acme";
  roles = none;
  permissions = some ("memory:read" ∷ "sandbox.execute" ∷ []);
  key_id = none;
  revoked = false;
  expires_at = none;
  scopes = none;
}

abbrev parsed : ApiKeyRecord
parsed = record {
  key_hash = "h:secret";
  subject = "ada";
  tenant_id = "acme";
  roles = "service" ∷ [];
  permissions = "memory.read" ∷ "sandbox.execute" ∷ [];
  key_id = "key-0";
  revoked = false;
  expires_at = none;
  scopes = [];
}

item_parses :
    parse_api_keys hash (key_items (item ∷ [])) (some "legacy-key")
    ≡ ok (("h:secret", parsed) ∷ ("h:legacy-key", legacy_record hash "legacy-key") ∷ [])
unfolding parse_api_keys item_hash normalize_permission get put legacy_record decimal
item_parses = refl

secret_found :
    get (("h:secret", parsed) ∷ ("h:legacy-key", legacy_record hash "legacy-key") ∷ []) "h:secret"
    ≡ some parsed
unfolding get
secret_found = refl

abbrev calls : List Call
calls =
    record { identity = "ada"; now = 10 }
    ∷ record { identity = "bob"; now = 11 }
    ∷ record { identity = "ada"; now = 12 }
    ∷ record { identity = "ada"; now = 60000010 }
    ∷ []

recent-admitted-le-limit_example : recent 60000011 (admitted (new 1) "ada" calls) ≤ 1
recent-admitted-le-limit_example =
    recent-admitted-le-limit 1 "ada" calls 60000011
      (omega arith, (omega arith, (omega arith, (omega arith, tt))))

-- A Redis that is reached or not, with its counters.
abbrev pub Counters : Type 0
Counters = (String → ℕ) × Bool

abbrev pub execute : Counters → List Command → Counters × Option (List ℕ)
execute (f, true) cs = ((counted f cs, true), some (replies f cs))
execute (f, false) cs = ((f, false), none)

abbrev pub count : Counters → String → ℕ
count s k = s.0 k

pub execute_replies :
    (s s' : Counters) (cs : List Command) (answers : List ℕ)
    → execute s cs ≡ (s', some answers)
    → answers ≡ replies (count s) cs
execute_replies (f, true) s' cs answers h = cc
execute_replies (f, false) s' cs answers h = cc

pub execute_counted :
    (s s' : Counters) (cs : List Command) (answers : List ℕ) (k : String)
    → execute s cs ≡ (s', some answers)
    → count s' k ≡ counted (count s) cs k
execute_counted (f, true) s' cs answers k h =
    let e : (counted f cs, true) ≡ s' = cc in rw (← e) refl
execute_counted (f, false) s' cs answers k h = cc

pub execute_failed :
    (s s' : Counters) (cs : List Command) (k : String)
    → execute s cs ≡ (s', none)
    → count s k ≤ count s' k
execute_failed (f, true) s' cs k h = absurd cc
execute_failed (f, false) s' cs k h = let e : (f, false) ≡ s' = cc in rw (← e) (omega arith)

abbrev pub redis : RedisClient
redis = record {
  Store = Counters;
  count = count;
  execute = execute;
  execute_replies = execute_replies;
  execute_counted = execute_counted;
  execute_failed = execute_failed;
}

abbrev rule : RateLimitRule
rule = record { scope = "ip:10.0.0.1"; limit = 1; window_seconds = 60; fail_closed = true }

abbrev limited_request : Request
limited_request = record { rules = rule ∷ []; now = 60 }

public_level : is_public_path "/architecture/levels/3" ≡ true
unfolding is_public_path contains starts_with
public_level = refl
