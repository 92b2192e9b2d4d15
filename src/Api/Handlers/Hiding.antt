-- ===== src/Api/Handlers/Hiding.antt =====
-- What the exception handlers tell, and the headers of their responses (api/main.py).
use agi_platform.Prelude.{
  ◌≤◌, String, Option, or_else, ◌≡◌, ◌≢◌, refl, arith, ap, Option-cases, inl, inr,
}
use agi_platform.Security.Errors.{PlatformError}
use agi_platform.Api.Controls.{Settings, Response, canonical_error, finish}
use agi_platform.Api.Controls.Hardening.{IsHardened, finish-IsHardened}
use agi_platform.Api.Handlers.{
  HttpException, platform_exception_handler, code_of_status, message_of, http_exception_handler,
  unhandled_exception_handler,
}

message_hidden :
    (e : HttpException)
    → 500 ≤ e.status_code
    → e.status_code ≢ 503
    → message_of e ≡ "Request could not be completed."
unfolding message_of
message_hidden e h k = elim (Option-cases e.detail) [
  | inl nothing ↦ rw nothing refl
  | inr (text, given) ↦ rw given (ground arith)
]

-- The response to an HTTP exception of the server's, other than 503, tells nothing of its detail: it is
-- the same for any other detail.
http_exception_handler-hides :
    (settings : Settings) (given : Option String) (fresh : String) (e : HttpException)
    (detail : Option String)
    → 500 ≤ e.status_code
    → e.status_code ≢ 503
    → http_exception_handler settings given fresh e
      ≡ http_exception_handler settings given fresh (record e { detail = detail })
unfolding http_exception_handler
http_exception_handler-hides settings given fresh e detail h k =
    let rid = or_else given fresh in
    let told : String → Response = λ m.
      finish settings rid (canonical_error (code_of_status e.status_code) m rid e.status_code) in
    let same : message_of e ≡ message_of (record e { detail = detail }) =
      rw (message_hidden e h k, message_hidden (record e { detail = detail }) h k) refl in
    ap told same

-- The responses of all three handlers carry the request's id, the service's name and the security
-- headers.
handlers-IsHardened :
    (settings : Settings) (given : Option String) (fresh : String) (p : PlatformError)
    (e : HttpException)
    → IsHardened settings (or_else given fresh) (platform_exception_handler settings given fresh p)
      × IsHardened settings (or_else given fresh) (http_exception_handler settings given fresh e)
      × IsHardened settings (or_else given fresh) (unhandled_exception_handler settings given fresh)
unfolding platform_exception_handler http_exception_handler unhandled_exception_handler
handlers-IsHardened settings given fresh p e = (
  finish-IsHardened settings (or_else given fresh) _,
  finish-IsHardened settings (or_else given fresh) _,
  finish-IsHardened settings (or_else given fresh) _,
)
