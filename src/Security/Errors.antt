-- ===== src/Security/Errors.antt =====
-- The platform's exceptions, with the code, the status and the safe message of each class
-- (agi_platform/security.py).
use agi_platform.Prelude.{ℕ, String}

pub data ErrorClass : Type 0 where
  platform authentication authorization validation not_found conflict dependency : ErrorClass
  provider rate_limit sandbox policy_denied internal : ErrorClass

unfoldable pub error_code : ErrorClass → String
error_code platform = "internal_error"
error_code authentication = "unauthenticated"
error_code authorization = "forbidden"
error_code validation = "invalid_request"
error_code not_found = "not_found"
error_code conflict = "conflict"
error_code dependency = "dependency_unavailable"
error_code provider = "provider_unavailable"
error_code rate_limit = "rate_limited"
error_code sandbox = "sandbox_error"
error_code policy_denied = "policy_denied"
error_code internal = "internal_error"

unfoldable pub error_status : ErrorClass → ℕ
error_status platform = 500
error_status authentication = 401
error_status authorization = 403
error_status validation = 422
error_status not_found = 404
error_status conflict = 409
error_status dependency = 503
error_status provider = 503
error_status rate_limit = 429
error_status sandbox = 403
error_status policy_denied = 403
error_status internal = 500

unfoldable pub default_message : ErrorClass → String
default_message platform = "Request could not be completed."
default_message authentication = "Valid authentication is required."
default_message authorization = "Permission denied."
default_message validation = "Request validation failed."
default_message not_found = "Resource not found."
default_message conflict = "Resource conflict."
default_message dependency = "Required dependency is unavailable."
default_message provider = "Provider unavailable."
default_message rate_limit = "Rate limit exceeded."
default_message sandbox = "Sandbox operation denied."
default_message policy_denied = "Policy denied the request."
default_message internal = "Request could not be completed."

-- An exception: its class, and what may be shown of it.
pub record PlatformError : Type 0 where
  pub class : ErrorClass
  pub safe_message : String
