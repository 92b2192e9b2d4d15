-- ===== src/Outbound/Client/Requests.antt =====
-- What `SecureHTTPClient.request` sends and gives back (agi_platform/outbound.py).
use agi_platform.Prelude.{
  ℕ, zero, suc, ◌+◌, ◌≤◌, String, ◌==◌, List, length, true, false, Option, none, some, All,
  contains, ltb, Result, ok, ◌≡◌, refl, ap, ◌||◌, arith, Bool-cases, Result-cases, inl, inr,
}
use agi_platform.Outbound.Policy.{OutboundPolicy}
use agi_platform.Outbound.Validation.{OutboundError, validate_outbound_url}
use agi_platform.Outbound.Validation.Safe.{IsSafe, validate-ok_iff}
use agi_platform.Outbound.Client.{
  Response, Http, is_empty, accept, Turn, ends, goes_on, turn_of, turn, last_turn, after_turn,
  follow, request,
}

module _ (http : Http) (policy : OutboundPolicy) where
  -- The URL is safe in the world in which it is requested.
  abbrev pub SafeThere : http.World × String → Type 0
  SafeThere (w, url) = IsSafe http.libraries (http.resolver w) policy url

  -- The answer is no redirect, of an allowed type or none, and not too long.
  pub record IsAccepted (response : Response) : Type 0 where
    pub final : response.is_redirect ≡ false
    pub typed :
        (is_empty policy.allowed_content_types
          || http.media_type response.content_type == ""
          || contains (http.media_type response.content_type) policy.allowed_content_types)
        ≡ true
    pub short : response.content_length ≤ policy.max_response_bytes

  validated :
      (w : http.World) (url url' : String)
      → validate_outbound_url http.libraries (http.resolver w) policy url ≡ ok url'
      → SafeThere (w, url')
  unfolding validate_outbound_url
  validated w url url' h =
      let same : url ≡ url' = ground (arith, h) in
      (validate-ok_iff http.libraries (http.resolver w) policy url').0 (rw same at h)

  turn-goes_on :
      (w : http.World) (url next : String) (answer : Option Response)
      → turn http policy w url answer ≡ goes_on next
      → SafeThere (w, next)
  unfolding turn turn_of
  turn-goes_on w url next none h = ground (arith, h)
  turn-goes_on w url next (some response) h =
      validated w (http.join url response.location) next (ground (arith, h))

  -- All that is sent is safe, and it is not more than the limit.
  Sent : ℕ → List (http.World × String) → Type 0
  Sent limit trace = All SafeThere trace × (length trace ≤ limit)

  after_turn-Sent :
      (w : http.World) (url : String) (t : Turn) (limit : ℕ)
      (rest : String → List (http.World × String) × Result OutboundError Response)
      → SafeThere (w, url)
      → ((next : String) → t ≡ goes_on next → Sent limit (rest next).0)
      → Sent (suc limit) (after_turn http policy (w, url) t rest).0
  unfolding after_turn Sent
  after_turn-Sent w url (ends r) limit rest safe f = ((safe, tt), omega arith)
  after_turn-Sent w url (goes_on next) limit rest safe f =
      let (all, few) = f next refl in ((safe, all), omega (arith, few))

  follow-Sent :
      (left : ℕ) (w : http.World) (deadline : ℕ) (method url : String)
      → SafeThere (w, url)
      → Sent (suc left) (follow http policy left w deadline method url).0
  unfolding follow
  follow-Sent zero w deadline method url safe = elim (Bool-cases (ltb deadline (http.clock w))) [
    | inl late ↦ rw late (unfold Sent in (tt, omega arith))
    | inr early ↦ rw early (unfold Sent in ((safe, tt), omega arith))
  ]
  follow-Sent (suc left) w deadline method url safe =
      elim (Bool-cases (ltb deadline (http.clock w))) [
        | inl late ↦ rw late (unfold Sent in (tt, omega arith))
        | inr early ↦ rw early (
            after_turn-Sent w url
              (turn http policy (http.send w method url).0 url (http.send w method url).1)
              (suc left)
              (λ next. follow http policy left (http.send w method url).0 deadline method next) safe
              (λ next h.
                follow-Sent left (http.send w method url).0 deadline method next
                  (turn-goes_on (http.send w method url).0 url next (http.send w method url).1 h)))
      ]

  -- Every request that is sent, a redirected one too, goes to a URL that is safe in the world as it is
  -- then, and no more are sent than one and the limit of redirects.
  pub request-SafeThere :
      (w : http.World) (method url : String)
      → All SafeThere (request http policy w method url).0
        × (length (request http policy w method url).0 ≤ policy.max_redirects + 1)
  unfolding request Sent
  request-SafeThere w method url =
      elim (Result-cases (validate_outbound_url http.libraries (http.resolver w) policy url)) [
        | inr (e, failed) ↦ rw (failed, request) (tt, omega arith)
        | inl (current, passed) ↦
            let (all, few) =
              follow-Sent policy.max_redirects w (http.clock w + policy.total_timeout) method
                current (validated w url current passed) in
            rw (passed, request) (all, omega (arith, few))
      ]

  accept-IsAccepted :
      (given response : Response)
      → given.is_redirect ≡ false
      → accept http policy given ≡ ok response
      → IsAccepted response
  unfolding accept
  accept-IsAccepted given response final h =
      let same : given ≡ response = ground (arith, h) in
      rw (← same) (record { final = final; typed = ground (arith, h); short = ground (arith, h) })

  last_turn-IsAccepted :
      (answer : Option Response) (response : Response)
      → last_turn http policy answer ≡ ok response
      → IsAccepted response
  unfolding last_turn
  last_turn-IsAccepted none response h = cc
  last_turn-IsAccepted (some given) response h =
      accept-IsAccepted given response (ground (arith, h)) (ground (arith, h))

  turn-ends :
      (w : http.World) (url : String) (answer : Option Response) (response : Response)
      → turn http policy w url answer ≡ ends (ok response)
      → IsAccepted response
  unfolding turn turn_of
  turn-ends w url none response h = ground (arith, h)
  turn-ends w url (some given) response h =
      accept-IsAccepted given response (ground (arith, h)) (ground (arith, h))

  after_turn-IsAccepted :
      (w : http.World) (url : String) (t : Turn) (response : Response)
      (rest : String → List (http.World × String) × Result OutboundError Response)
      → (t ≡ ends (ok response) → IsAccepted response)
      → ((next : String) → (rest next).1 ≡ ok response → IsAccepted response)
      → (after_turn http policy (w, url) t rest).1 ≡ ok response
      → IsAccepted response
  unfolding after_turn
  after_turn-IsAccepted w url (ends r) response rest f g h = f (ap ends h)
  after_turn-IsAccepted w url (goes_on next) response rest f g h = g next h

  follow-IsAccepted :
      (left : ℕ) (w : http.World) (deadline : ℕ) (method url : String) (response : Response)
      → (follow http policy left w deadline method url).1 ≡ ok response
      → IsAccepted response
  unfolding follow
  follow-IsAccepted zero w deadline method url response h =
      elim (Bool-cases (ltb deadline (http.clock w))) [
        | inl late ↦ let h' = rw late at h in ground (arith, h')
        | inr early ↦ last_turn-IsAccepted (http.send w method url).1 response (rw early at h)
      ]
  follow-IsAccepted (suc left) w deadline method url response h =
      elim (Bool-cases (ltb deadline (http.clock w))) [
        | inl late ↦ let h' = rw late at h in ground (arith, h')
        | inr early ↦
            after_turn-IsAccepted w url
              (turn http policy (http.send w method url).0 url (http.send w method url).1) response
              (λ next. follow http policy left (http.send w method url).0 deadline method next)
              (turn-ends (http.send w method url).0 url (http.send w method url).1 response)
              (λ next.
                follow-IsAccepted left (http.send w method url).0 deadline method next response)
              (rw early at h)
      ]

  -- An answer that is given back is no redirect, has an allowed content type, none, or any if all are
  -- allowed, and is not longer than the limit.
  request-IsAccepted :
      (w : http.World) (method url : String) (response : Response)
      → (request http policy w method url).1 ≡ ok response
      → IsAccepted response
  unfolding request
  request-IsAccepted w method url response h =
      elim (Result-cases (validate_outbound_url http.libraries (http.resolver w) policy url)) [
        | inr (e, failed) ↦ let h' = rw (failed, request) at h in ground (arith, h')
        | inl (current, passed) ↦
            follow-IsAccepted policy.max_redirects w (http.clock w + policy.total_timeout) method
              current response (rw (passed, request) at h)
      ]
