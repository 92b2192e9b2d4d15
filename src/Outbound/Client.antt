-- ===== src/Outbound/Client.antt =====
-- `SecureHTTPClient.request` (agi_platform/outbound.py). The world around the client is a state: it
-- resolves hosts, has a clock, and answers requests.
pub mod Requests
use agi_platform.Prelude.{
  ℕ, zero, suc, ◌+◌, String, ◌==◌, List, [], ◌∷◌, Bool, true, false, not, ◌&&◌, Option, none, some,
  contains, ltb, Result, ◌>>=◌, or_raise, ok, raise, if◌then◌else◌,
}
use agi_platform.Outbound.Policy.{OutboundPolicy}
use agi_platform.Outbound.Validation.{
  OutboundError, outbound_security_error, timeout_exception, transport_error, Libraries,
  validate_outbound_url,
}

-- Of an answer: a header that is missing or empty is "".
pub record Response : Type 0 where
  pub is_redirect : Bool
  pub location : String
  pub content_type : String
  pub content_length : ℕ

-- `send` is `httpx.Client.request`, which may raise; `join` is `str(httpx.URL(url).join(location))`, and
-- `media_type` is `.split(";")[0].strip().lower()`.
pub record Http : Type 1 where
  pub World : Type 0
  pub libraries : Libraries
  pub resolver : World → String → ℕ → Option (List String)
  pub clock : World → ℕ
  pub send : World → String → String → World × Option Response
  pub join : String → String → String
  pub media_type : String → String

-- After an answer, the loop ends, or it goes on with another URL.
pub data Turn : Type 0 where
  ends : Result OutboundError Response → Turn
  goes_on : String → Turn

abbrev pub is_empty : List String → Bool
is_empty [] = true
is_empty (x ∷ xs) = false

module _ (http : Http) (policy : OutboundPolicy) where
  -- The checks of an answer that is no redirect.
  unfoldable pub accept : Response → Result OutboundError Response
  accept response =
      let content_type = http.media_type response.content_type in
      if not (is_empty policy.allowed_content_types)
        && not (content_type == "")
        && not (contains content_type policy.allowed_content_types)
      then raise outbound_security_error
      else if ltb policy.max_response_bytes response.content_length
      then raise outbound_security_error
      else ok response

  unfoldable pub turn_of : Result OutboundError String → Turn
  turn_of (ok url) = goes_on url
  turn_of (raise e) = ends (raise e)

  -- What an answer leads to, while redirects are left.
  unfoldable pub turn : http.World → String → Option Response → Turn
  unfolding accept turn_of
  turn w url none = ends (raise transport_error)
  turn w url (some response) =
      if not response.is_redirect
      then ends (accept response)
      else if response.location == ""
      then ends (raise outbound_security_error)
      else turn_of (
          validate_outbound_url http.libraries (http.resolver w) policy
            (http.join url response.location))

  -- What an answer leads to when no redirect is left.
  unfoldable pub last_turn : Option Response → Result OutboundError Response
  unfolding accept
  last_turn none = raise transport_error
  last_turn (some response) =
      if response.is_redirect then raise outbound_security_error else accept response

  unfoldable pub after_turn :
      http.World × String
      → Turn
      → (String → List (http.World × String) × Result OutboundError Response)
      → List (http.World × String) × Result OutboundError Response
  after_turn sent (ends result) follow_on = (sent ∷ [], result)
  after_turn sent (goes_on next) follow_on = let rest = follow_on next in (sent ∷ rest.0, rest.1)

  -- The loop with so many redirects left, and the requests that it sends, each with the world that it
  -- is sent in.
  unfoldable pub follow :
      ℕ
      → http.World
      → ℕ
      → String
      → String
      → List (http.World × String) × Result OutboundError Response
  unfolding turn last_turn after_turn
  follow zero w deadline method url =
      if ltb deadline (http.clock w)
      then ([], raise timeout_exception)
      else ((w, url) ∷ [], last_turn (http.send w method url).1)
  follow (suc left) w deadline method url =
      let w' = (http.send w method url).0 in
      if ltb deadline (http.clock w)
      then ([], raise timeout_exception)
      else after_turn (w, url) (turn w' url (http.send w method url).1)
          (λ next. follow left w' deadline method next)

  unfoldable pub request :
      http.World → String → String → List (http.World × String) × Result OutboundError Response
  unfolding follow
  request w method url = elim (validate_outbound_url http.libraries (http.resolver w) policy url) [
    | raise e ↦ ([], raise e)
    | ok current ↦
        follow policy.max_redirects w (http.clock w + policy.total_timeout) method current
  ]

  unfoldable pub get :
      http.World → String → List (http.World × String) × Result OutboundError Response
  unfolding request
  get w url = request w "GET" url

  unfoldable pub post :
      http.World → String → List (http.World × String) × Result OutboundError Response
  unfolding request
  post w url = request w "POST" url
