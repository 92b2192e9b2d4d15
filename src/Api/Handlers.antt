-- ===== src/Api/Handlers.antt =====
-- The three exception handlers of api/main.py. The request's id is what the middleware left in
-- `request.state`, or the fresh one if there is none.
pub mod Hiding
use agi_platform.Prelude.{
  ℕ, String, Bool, true, false, not, ◌&&◌, ◌||◌, Option, none, some, or_else, eqb, ltb,
  if◌then◌else◌,
}
use agi_platform.Security.Errors.{PlatformError, error_code, error_status}
use agi_platform.Api.Controls.{Settings, Response, canonical_error, finish}

-- `HTTPException`; a detail that is not a text is `none`.
pub record HttpException : Type 0 where
  pub status_code : ℕ
  pub detail : Option String

unfoldable pub platform_exception_handler :
    Settings → Option String → String → PlatformError → Response
platform_exception_handler settings given fresh e =
    let rid = or_else given fresh in
    finish settings rid
      (canonical_error (error_code e.class) e.safe_message rid (error_status e.class))

-- `code_by_status.get(status, "request_error")`
unfoldable pub code_of_status : ℕ → String
code_of_status status =
    if eqb status 401
    then "unauthenticated"
    else if eqb status 403
    then "forbidden"
    else if eqb status 404
    then "not_found"
    else if eqb status 422
    then "invalid_request"
    else if eqb status 503
    then "service_unavailable"
    else "request_error"

unfoldable pub message_of : HttpException → String
message_of e = elim e.detail [
  | none ↦ "Request could not be completed."
  | some text ↦
      if ltb e.status_code 500 || eqb e.status_code 503
      then text
      else "Request could not be completed."
]

unfoldable pub http_exception_handler : Settings → Option String → String → HttpException → Response
http_exception_handler settings given fresh e =
    let rid = or_else given fresh in
    finish settings rid
      (canonical_error (code_of_status e.status_code) (message_of e) rid e.status_code)

unfoldable pub unhandled_exception_handler : Settings → Option String → String → Response
unhandled_exception_handler settings given fresh =
    let rid = or_else given fresh in
    finish settings rid (canonical_error "internal_error" "Request could not be completed." rid 500)
