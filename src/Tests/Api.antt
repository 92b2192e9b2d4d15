-- ===== src/Tests/Api.antt =====
-- The theorems on the middleware at concrete requests (api/main.py).
use agi_platform.Prelude.{
  none, some, [], ◌∷◌, true, false, ok, Dict, get, contains, starts_with, ◌≡◌, refl, ◌⊎◌,
}
use agi_platform.Security.Permissions.{normalize_permission, governance_actions}
use agi_platform.Security.Keys.{ApiKeyRecord, active, identity_of, authenticate_request}
use agi_platform.Security.Routes.{route_permission, exact_permission, is_public_path}
use agi_platform.Security.Policy.{authorize}
use agi_platform.Api.Controls.{
  Settings, Request, Moment, Response, other_body, RequestState, context_of, admit,
  production_controls,
}
use agi_platform.Api.Controls.Hardening.{IsHardened, production_controls-IsHardened}
use agi_platform.Api.Controls.Admission.{WorksFor, IsOpen, admit-Cleared}
use agi_platform.Security.Errors.{PlatformError, not_found}
use agi_platform.Api.Handlers.{HttpException}
use agi_platform.Tests.Security.{redis, hash}

abbrev settings : Settings
settings = record {
  rate_limit_per_minute = 60;
  rate_limit_fail_open = false;
  redis_required = true;
  service_name = "agi-platform";
}

abbrev reviewer : ApiKeyRecord
reviewer = record {
  key_hash = "h:secret";
  subject = "ada";
  tenant_id = "acme";
  roles = "service" ∷ [];
  permissions = "governance.propose" ∷ [];
  key_id = "key-0";
  revoked = false;
  expires_at = none;
  scopes = [];
}

abbrev api_keys : Dict ApiKeyRecord
api_keys = ("h:secret", reviewer) ∷ []

abbrev request : Request
request = record {
  method = "POST";
  path = "/governance/proposals";
  client_host = some "10.0.0.1";
  x_request_id = some "req-1";
  headers = record { x_api_key = some "secret"; x_tenant_id = none };
  x_approval_id = none;
}

abbrev moment : Moment
moment = record { now = 120; fresh_id = "fresh" }

abbrev call_next : Request → RequestState → Response
call_next _ _ = record {
  status_code = 200;
  headers = ("Cache-Control", "public") ∷ [];
  body = other_body "done";
}

production_controls-IsHardened_example :
    IsHardened settings "req-1"
      (production_controls redis hash settings api_keys call_next ((λ k. 0), true) request moment).1
production_controls-IsHardened_example =
    production_controls-IsHardened redis hash settings api_keys call_next ((λ k. 0), true) request
      moment

abbrev state : RequestState
state = record {
  request_id = "req-1";
  tenant_context = some (context_of (identity_of reviewer) "req-1");
}

admitted_here : (admit hash api_keys request "req-1" 120).0 ≡ ok state
unfolding admit is_public_path contains starts_with route_permission exact_permission
    authenticate_request get active authorize identity_of context_of normalize_permission
admitted_here = refl

admit-Cleared_example :
    ((is_public_path request.path ≡ true) × (state.tenant_context ≡ none))
    ⊎ ((state.tenant_context ≡ none) × IsOpen api_keys request)
    ⊎ WorksFor hash api_keys request "req-1" 120 state
admit-Cleared_example = admit-Cleared hash api_keys request "req-1" 120 state admitted_here

not_public : is_public_path "/governance/proposals" ≡ false
unfolding is_public_path contains starts_with
not_public = refl

proved : authenticate_request hash request.headers api_keys 120 ≡ ok (some (identity_of reviewer))
unfolding authenticate_request get active
proved = refl

guard : route_permission "POST" "/governance/proposals" ≡ some "governance.propose"
unfolding route_permission exact_permission
guard = refl

governed : contains (normalize_permission "governance.propose") governance_actions ≡ true
unfolding contains normalize_permission get
governed = refl

abbrev failure : HttpException
failure = record { status_code = 500; detail = some "password=secret" }

abbrev absent : PlatformError
absent = record { class = not_found; safe_message = "Resource not found." }
