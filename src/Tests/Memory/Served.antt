-- ===== src/Tests/Memory/Served.antt =====
-- The theorem on the endpoints at two calls, of which one has no key (api/main.py).
use agi_platform.Prelude.{
  String, ◌+++◌, List, [], ◌∷◌, true, false, Option, none, some, Dict, get, put, contains,
  starts_with, ok, raise, ◌≡◌, refl,
}
use agi_platform.Database.ListTable.{lookup}
use agi_platform.Security.Keys.{ApiKeyRecord, authenticate_request}
use agi_platform.Security.Routes.{route_permission, exact_permission, is_public_path}
use agi_platform.Security.Policy.{authorize}
use agi_platform.Memory.Tables.{add_version, ensure_tenant}
use agi_platform.Memory.Store.{store}
use agi_platform.Services.{store_memory}
use agi_platform.Api.Controls.{canonical_error, admit}
use agi_platform.Api.Endpoints.{
  memory, memory_store, HttpCall, path_of, request_of, behind, serve, serve_all,
}
use agi_platform.Api.Endpoints.Effects.{Effect}
use agi_platform.Api.Endpoints.Authority.{ByACall, serve_all-Effect}
use agi_platform.Tests.Memory.{python, schema}
use agi_platform.Tests.Memory.Reviewed.{ratios, service, request, stored_memory}

abbrev hash : String → String
hash key = "h:" +++ key

abbrev writer : ApiKeyRecord
writer = record {
  key_hash = "h:secret";
  subject = "alice";
  tenant_id = "acme";
  roles = [];
  permissions = "memory.write" ∷ [];
  key_id = "k";
  revoked = false;
  expires_at = none;
  scopes = [];
}

abbrev api_keys : Dict ApiKeyRecord
api_keys = ("h:secret", writer) ∷ []

abbrev lower : String → String
lower s = s

abbrev stores : Option String → HttpCall python schema ratios lower true
stores key = record {
  call = memory_store request;
  client_host = none;
  x_request_id = some "r";
  headers = record { x_api_key = key; x_tenant_id = none };
  x_approval_id = none;
  fresh_id = "fresh";
  arrived = 10;
  drawn = record { now = 10; evidence_id = "e1"; audit_id = "a1" };
}

abbrev calls : List (HttpCall python schema ratios lower true)
calls = stores none ∷ stores (some "secret") ∷ []

-- The call without a key is refused, and the other is answered with the memory.
unkeyed :
    (serve python schema ratios lower true hash api_keys service (stores none)).1
    ≡ raise (canonical_error "unauthenticated" "Valid API key required." "r" 401)
unfolding serve behind request_of path_of admit is_public_path contains starts_with
    authenticate_request
unkeyed = refl

keyed :
    (serve python schema ratios lower true hash api_keys service (stores (some "secret"))).1
    ≡ ok (ok (memory stored_memory))
unfolding serve behind request_of path_of admit is_public_path contains starts_with
    authenticate_request get route_permission exact_permission authorize store_memory store
    ensure_tenant lookup add_version put
keyed = refl

serve_all-Effect_example :
    Effect python schema
      (ByACall python schema ratios lower true hash api_keys calls)
      service
      (serve_all python schema ratios lower true hash api_keys service calls)
serve_all-Effect_example =
    serve_all-Effect python schema ratios lower true hash api_keys service calls
