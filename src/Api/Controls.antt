-- ===== src/Api/Controls.antt =====
-- `production_controls`, the middleware of api/main.py: rate limits, authentication, authorisation
-- and the headers of every response. The handlers behind it are the parameter `call_next`.
pub mod Admission
pub mod Hardening
use agi_platform.Prelude.{
  ℕ, ◌+◌, ◌*◌, ◌/◌, max, String, ◌+++◌, ◌==◌, List, [], ◌∷◌, ◌++◌, Bool, true, false, not, ◌||◌,
  Option, none, some, or_else, Result, ok, raise, Dict, get, put, any, starts_with, if◌then◌else◌,
}
use agi_platform.Security.Errors.{PlatformError, error_code, error_status}
use agi_platform.Security.Permissions.{Identity, TenantContext}
use agi_platform.Security.Policy.{AuthorizationDecision, authorize}
use agi_platform.Security.Keys.{
  ApiKeyRecord, text_or, Headers, TypeError, type_error, authenticate_request,
}
use agi_platform.Security.Routes.{route_permission, is_public_path}
use agi_platform.Security.RedisRateLimiter.{RateLimitRule, RedisClient, check}

pub record Settings : Type 0 where
  pub rate_limit_per_minute : ℕ
  pub rate_limit_fail_open : Bool
  pub redis_required : Bool
  pub service_name : String

-- A request, as far as the middleware reads it.
pub record Request : Type 0 where
  pub method : String
  pub path : String
  pub client_host : Option String
  pub x_request_id : Option String
  pub headers : Headers
  pub x_approval_id : Option String

-- What else a call of the middleware reads: the clock, and a fresh `request_id()`.
pub record Moment : Type 0 where
  pub now : ℕ
  pub fresh_id : String

-- `AuditTrail.record`
pub record AuditEvent : Type 0 where
  pub tenant_id : String
  pub subject : String
  pub action : String
  pub resource : String
  pub result : String
  pub reason : String
  pub request_id : String
  pub created_at : ℕ

pub data Body : Type 0 where
  error_body : String → String → String → Body
  other_body : String → Body

pub record Response : Type 0 where
  pub status_code : ℕ
  pub headers : Dict String
  pub body : Body

unfoldable pub canonical_error : String → String → String → ℕ → Response
canonical_error code message request_id status = record {
  status_code = status;
  headers = [];
  body = error_body code message request_id;
}

abbrev set_header : String → String → Response → Response
set_header name value r = record r { headers = put r.headers name value }

abbrev pub security_headers : Dict String
security_headers =
    ("X-Content-Type-Options", "nosniff")
    ∷ ("X-Frame-Options", "DENY")
    ∷ ("Referrer-Policy", "no-referrer")
    ∷ ("Permissions-Policy", "geolocation=(), microphone=(), camera=()")
    ∷ ("Cache-Control", "no-store")
    ∷ []

-- The loop of `apply_production_headers`.
unfoldable pub set_all : Dict String → Dict String → Dict String
set_all [] headers = headers
set_all ((name, value) ∷ more) headers = set_all more (put headers name value)

unfoldable pub apply_production_headers : Response → String → Response
apply_production_headers r service_name = record r {
  headers = put (set_all security_headers r.headers) "X-Service-Name" service_name;
}

-- `response.headers["X-Request-ID"] = rid`, and the headers of production.
unfoldable pub finish : Settings → String → Response → Response
unfolding apply_production_headers
finish settings rid r =
    apply_production_headers (set_header "X-Request-ID" rid r) settings.service_name

abbrev expensive_paths : Dict String
expensive_paths =
    ("/chat", "llm")
    ∷ ("/completion", "llm")
    ∷ ("/embeddings", "embeddings")
    ∷ ("/research/query", "research")
    ∷ ("/research/report", "research")
    ∷ ("/sandbox/execute", "sandbox")
    ∷ ("/github/repositories", "github_indexing")
    ∷ []

minute_rule : String → ℕ → Bool → RateLimitRule
minute_rule scope limit fail_closed = record {
  scope = scope;
  limit = limit;
  window_seconds = 60;
  fail_closed = fail_closed;
}

expensive_rules : Settings → Option String → List RateLimitRule
unfolding minute_rule
expensive_rules settings none = []
expensive_rules settings (some kind) =
    minute_rule ("expensive:" +++ kind) (max 1 (settings.rate_limit_per_minute / 4)) true ∷ []

unfoldable pub rate_rules : Settings → Request → List RateLimitRule
unfolding minute_rule expensive_rules
rate_rules settings request =
    let closed = not settings.rate_limit_fail_open in
    let limit = settings.rate_limit_per_minute in
    (minute_rule ("ip:" +++ or_else request.client_host "unknown") limit closed
      ∷ minute_rule ("api_key:" +++ text_or request.headers.x_api_key "anonymous") limit closed
      ∷ minute_rule ("tenant:" +++ text_or request.headers.x_tenant_id "unknown") (limit * 5) closed
      ∷ [])
    ++ expensive_rules settings (get expensive_paths request.path)

-- What the middleware leaves in `request.state` for the handlers.
pub record RequestState : Type 0 where
  pub request_id : String
  pub tenant_context : Option TenantContext

-- A refusal with its response, or the state with which `call_next` is called; and the audit events.
abbrev pub Admission : Type 0
Admission = Result Response RequestState × List AuditEvent

abbrev pub closed_prefixes : List String
closed_prefixes =
    "/sandbox" ∷ "/orchestrate" ∷ "/github" ∷ "/graph" ∷ "/governance" ∷ "/evolution" ∷ []

-- With no API key configured: only what needs no permission, or is under no closed prefix.
unconfigured : Request → String → Option String → Result Response RequestState
unfolding canonical_error
unconfigured request rid none = ok (record { request_id = rid; tenant_context = none })
unconfigured request rid (some permission) =
    if any (λ p. starts_with request.path p) closed_prefixes
    then raise (
        canonical_error "dependency_unavailable"
          "Authorization must be configured for this endpoint." rid 503)
    else ok (record { request_id = rid; tenant_context = none })

audit_event : Identity → Request → String → ℕ → String → AuthorizationDecision → AuditEvent
audit_event identity request rid now permission d = record {
  tenant_id = identity.tenant_id;
  subject = identity.subject;
  action = permission;
  resource = request.path;
  result = if d.allowed then "allowed" else "denied";
  reason = d.reason;
  request_id = rid;
  created_at = now;
}

abbrev pub is_given : Option String → Bool
is_given none = false
is_given (some _) = true

unfoldable pub context_of : Identity → String → TenantContext
context_of identity rid = record {
  tenant_id = identity.tenant_id;
  identity = identity;
  request_id = rid;
}

-- The policy's decision on a permission.
decided : Identity → Request → String → ℕ → String → AuthorizationDecision → Admission
unfolding audit_event context_of canonical_error
decided identity request rid now permission d = (
  if d.allowed
      then ok (record { request_id = rid; tenant_context = some (context_of identity rid) })
      else raise (canonical_error "forbidden" "Permission denied." rid 403),
  if d.audit_required then audit_event identity request rid now permission d ∷ [] else [],
)

-- An authenticated request.
authorized : Identity → Request → String → ℕ → Option String → Admission
unfolding decided
authorized identity request rid now none =
    (ok (record { request_id = rid; tenant_context = some (context_of identity rid) }), [])
authorized identity request rid now (some permission) =
    decided identity request rid now permission (
      authorize (some identity) (some (context_of identity rid)) permission
        (some identity.tenant_id) (is_given request.x_approval_id))

-- With API keys configured. A `TypeError` goes to `unhandled_exception_handler`, whose response carries the
-- same headers as that of a refusal.
configured : Result TypeError (Option Identity) → Request → String → ℕ → Admission
unfolding authorized
configured (raise type_error) request rid now =
    (raise (canonical_error "internal_error" "Request could not be completed." rid 500), [])
configured (ok none) request rid now =
    (raise (canonical_error "unauthenticated" "Valid API key required." rid 401), [])
configured (ok (some identity)) request rid now =
    authorized identity request rid now (route_permission request.method request.path)

guarded : (String → String) → Dict ApiKeyRecord → Request → String → ℕ → Admission
unfolding configured unconfigured
guarded hash [] request rid now =
    (unconfigured request rid (route_permission request.method request.path), [])
guarded hash (k ∷ ks) request rid now =
    configured (authenticate_request hash request.headers (k ∷ ks) now) request rid now

-- What follows the rate limiter.
unfoldable pub admit : (String → String) → Dict ApiKeyRecord → Request → String → ℕ → Admission
unfolding guarded
admit hash api_keys request rid now =
    if is_public_path request.path
    then (ok (record { request_id = rid; tenant_context = none }), [])
    else guarded hash api_keys request rid now

limited : PlatformError → String → Response
limited e rid = canonical_error (error_code e.class) e.safe_message rid (error_status e.class)

module _ (redis : RedisClient) (hash : String → String) (settings : Settings)
    (api_keys : Dict ApiKeyRecord) (call_next : Request → RequestState → Response) where
  answered : Request → String → Admission → Response × List AuditEvent
  unfolding finish
  answered request rid (raise refusal, events) = (finish settings rid refusal, events)
  answered request rid (ok state, events) = (finish settings rid (call_next request state), events)

  after_limits : Request → String → ℕ → Result PlatformError (Unit {0}) → Response × List AuditEvent
  unfolding answered limited admit
  after_limits request rid now (raise e) = (finish settings rid (limited e rid), [])
  after_limits request rid now (ok _) = answered request rid (admit hash api_keys request rid now)

  unfoldable pub production_controls :
      redis.Store → Request → Moment → redis.Store × Response × List AuditEvent
  unfolding after_limits
  production_controls store request moment =
      let rid = text_or request.x_request_id moment.fresh_id in
      let (store', limits) =
        check redis settings.redis_required store (rate_rules settings request) moment.now in
      let (response, events) = after_limits request rid moment.now limits in
      (store', response, events)
