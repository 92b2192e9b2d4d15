-- ===== src/Api/Controls/Hardening.antt =====
-- The headers that every response carries (api/main.py, agi_platform/security.py).
use agi_platform.Prelude.{ℕ, String, some, Result, ok, raise, Dict, get, get-put, All, ◌≡◌}
use agi_platform.Security.Errors.{PlatformError}
use agi_platform.Security.Keys.{ApiKeyRecord, text_or}
use agi_platform.Security.RedisRateLimiter.{RedisClient, check}
use agi_platform.Api.Controls.{
  Settings, Request, Moment, Response, security_headers, set_all, finish, RequestState, Admission,
  answered, admit, rate_rules, limited, after_limits, production_controls,
}

-- The request's id, the service's name, and the five headers of `security_headers`.
pub record IsHardened (settings : Settings) (rid : String) (r : Response) : Type 0 where
  pub request_id : get r.headers "X-Request-ID" ≡ some rid
  pub service : get r.headers "X-Service-Name" ≡ some settings.service_name
  pub security : All (λ h. get r.headers h.0 ≡ some h.1) security_headers

pub finish-IsHardened :
    (settings : Settings) (rid : String) (r : Response)
    → IsHardened settings rid (finish settings rid r)
unfolding finish set_all
finish-IsHardened settings rid r = record {
  request_id = simp get-put;
  service = simp get-put;
  security = (simp get-put, (simp get-put, (simp get-put, (simp get-put, (simp get-put, tt)))));
}

module _ (redis : RedisClient) (hash : String → String) (settings : Settings)
    (api_keys : Dict ApiKeyRecord) (call_next : Request → RequestState → Response) where
  answered-IsHardened :
      (request : Request) (rid : String) (a : Admission)
      → IsHardened settings rid (answered redis hash settings api_keys call_next request rid a).0
  unfolding answered
  answered-IsHardened request rid (raise refusal, events) = finish-IsHardened settings rid refusal
  answered-IsHardened request rid (ok state, events) =
      finish-IsHardened settings rid (call_next request state)

  after_limits-IsHardened :
      (request : Request) (rid : String) (now : ℕ) (limits : Result PlatformError (Unit {0}))
      → IsHardened settings rid
          (after_limits redis hash settings api_keys call_next request rid now limits).0
  unfolding after_limits
  after_limits-IsHardened request rid now (raise e) = finish-IsHardened settings rid (limited e rid)
  after_limits-IsHardened request rid now (ok u) =
      answered-IsHardened request rid (admit hash api_keys request rid now)

  -- Every response carries the request's own id, or the fresh one if it has none, the service's name
  -- and all security headers: whether the rate limiter, the authentication or the policy refused the
  -- request or a handler answered it, and whatever headers the handler set.
  pub production_controls-IsHardened :
      (store : redis.Store) (request : Request) (moment : Moment)
      → IsHardened settings
          (text_or request.x_request_id moment.fresh_id)
          (production_controls redis hash settings api_keys call_next store request moment).1
  unfolding production_controls
  production_controls-IsHardened store request moment =
      after_limits-IsHardened request (text_or request.x_request_id moment.fresh_id) moment.now
        (check redis settings.redis_required store (rate_rules settings request) moment.now).1
