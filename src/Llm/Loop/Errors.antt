-- ===== src/Llm/Loop/Errors.antt =====
-- What the errors of the providers do to a call of `complete` (agi_platform/llm/core.py).
use agi_platform.Prelude.{
  ℕ, zero, suc, ◌+◌, String, ◌==◌, List, [], ◌∷◌, length, Bool, true, false, Option, Result,
  Result-cases, ◌>>=◌, ok, raise, ◌≡◌, ◌≤◌, ◌⊎◌, refl, sym, subst, ◌∙◌, inl, inr, arith,
}
use agi_platform.Llm.Json.{
  Json, Fields, array, object, no_items, item, no_fields, get_field, get_json,
}
use agi_platform.Llm.Extraction.{extract_chat_content, first_of}
use agi_platform.Llm.Providers.{Provider}
use agi_platform.Llm.Adapter.{HttpPost, chat_post}
use agi_platform.Llm.Policies.{
  Floats, Thrown, http_status_error, runtime_error, value_error, transport_error, type_error,
  index_error, key_error,
}
use agi_platform.Llm.Gateway.{Network, Completion, LlmGateway, chosen_model, pause, completion_of}
use agi_platform.Llm.Loop.{
  is_client_error, Verdict, answered, exhausted, threw, Progress, stops, after_answer, after_error,
  proceed, attempts, ask, after_provider, ask_all, admitted, complete,
}

-- The errors that no handler of the loop catches.
unfoldable is_uncaught : Thrown → Bool
is_uncaught (http_status_error status) = false
is_uncaught runtime_error = false
is_uncaught value_error = false
is_uncaught transport_error = false
is_uncaught type_error = true
is_uncaught index_error = true
is_uncaught key_error = true

-- The error of a server, or of a client that asks too often: a status from 500 on, or 429.
unfoldable pub IsServerError : {A : Type 0} → Result Thrown A → Type 0
IsServerError r =
    (status : ℕ) × (r ≡ raise (http_status_error status)) × ((500 ≤ status) ⊎ (status ≡ 429))

server_status : (status : ℕ) → (500 ≤ status) ⊎ (status ≡ 429) → is_client_error status ≡ false
server_status status h = ground arith

module _ (floats : Floats) (network : Network) (message : String) (stream : Bool)
    (tenant_id request_id : String) where
  module _ (down : (w : network.World) (r : HttpPost) → IsServerError (network.post w r).1) where
    attempts_down :
        (p : Provider) (model : String) (left attempt : ℕ) (w : network.World)
        (g : LlmGateway floats network) (errors : ℕ)
        → (let done =
              attempts floats network message stream tenant_id request_id p model left attempt w g
                errors in
            (done.gateway ≡ g) × (done.verdict ≡ exhausted) × (length done.calls ≡ left))
    unfolding attempts after_answer after_error proceed IsServerError
    attempts_down p model zero attempt w g errors = (refl, refl, refl)
    attempts_down p model (suc left) attempt w g errors =
        let sent = network.post w (chat_post network.getenv p model message stream) in
        let (status, failed, kind) = down w (chat_post network.getenv p model message stream) in
        let server : is_client_error status ≡ false = server_status status kind in
        let (same, ends, few) =
          attempts_down p model left (attempt + 1)
            (pause floats network sent.0 g.routing_policy attempt) g (errors + 1) in
        rw (failed, server) (same, ends, omega (arith, few))

    ask_down :
        (p : Provider) (model : Result Thrown String) (w : network.World)
        (g : LlmGateway floats network) (errors : ℕ)
        → (ask floats network message stream tenant_id request_id p model w g errors).gateway ≡ g
    unfolding ask
    ask_down p (raise e) w g errors = refl
    ask_down p (ok model) w g errors =
        (attempts_down p model (g.routing_policy.max_retries + 1) 0 w g errors).0

    after_provider_down :
        (g : LlmGateway floats network) (v : Verdict floats network)
        (done : Progress floats network)
        (more : network.World → LlmGateway floats network → ℕ → Progress floats network)
        → done.gateway ≡ g
        → ((w : network.World) (g' : LlmGateway floats network) (errors : ℕ)
            → g' ≡ g
            → (more w g' errors).gateway ≡ g)
        → (after_provider floats network message stream tenant_id request_id v done more).gateway
          ≡ g
    unfolding after_provider
    after_provider_down g (answered c) done more h f = h
    after_provider_down g exhausted done more h f = f done.world done.gateway done.errors h
    after_provider_down g (threw e) done more h f = h

    ask_all_down :
        (ps : List Provider) (model : Option String) (w : network.World)
        (g g' : LlmGateway floats network) (errors : ℕ)
        → g' ≡ g
        → (ask_all floats network message stream tenant_id request_id ps model w g' errors).gateway
          ≡ g
    unfolding ask_all
    ask_all_down [] model w g g' errors same = same
    ask_all_down (p ∷ ps) model w g g' errors same =
        let done =
          ask floats network message stream tenant_id request_id p (chosen_model model p) w g'
            errors in
        after_provider_down g done.verdict done
          (λ w' g' errors'.
            ask_all floats network message stream tenant_id request_id ps model w' g' errors')
          (ask_down p (chosen_model model p) w g' errors ∙ same)
          (λ w' g' errors' same'. ask_all_down ps model w' g g' errors' same')

    -- While every request gets the error of a server (a status from 500 on, or 429), a call changes nothing
    -- of the gateway: no failure is recorded, so no circuit opens.
    pub complete-is_client_error :
        (w : network.World) (g : LlmGateway floats network) (model : Option String)
        → (complete floats network message stream tenant_id request_id w g model).gateway ≡ g
    unfolding complete
    complete-is_client_error w g model =
        elim (Result-cases
          (admitted floats network message stream tenant_id request_id w g model)) [
            | inr (e, no_way) ↦ rw (no_way, complete) refl
            | inl (ps, way) ↦ rw (way, complete) (ask_all_down ps model w g g 0 refl)
          ]

  after_error-is_uncaught :
      (w : network.World) (g : LlmGateway floats network) (name : String) (attempt : ℕ) (e : Thrown)
      → is_uncaught e ≡ true
      → after_error floats network w g name attempt e ≡ stops w g (threw e)
  unfolding after_error is_uncaught
  after_error-is_uncaught w g name attempt (http_status_error status) h = cc
  after_error-is_uncaught w g name attempt runtime_error h = cc
  after_error-is_uncaught w g name attempt value_error h = cc
  after_error-is_uncaught w g name attempt transport_error h = cc
  after_error-is_uncaught w g name attempt type_error h = refl
  after_error-is_uncaught w g name attempt index_error h = refl
  after_error-is_uncaught w g name attempt key_error h = refl

  -- The end of the first attempt of all at such an answer.
  Ended : LlmGateway floats network → Provider → Thrown → Progress floats network → Type 0
  Ended g p e done = (done.verdict ≡ threw e) × (done.calls ≡ p.name ∷ []) × (done.gateway ≡ g)

  after_answer-is_uncaught :
      (g : LlmGateway floats network) (p : Provider) (w : network.World) (e : Thrown)
      (r : Result Thrown (LlmGateway floats network × Completion floats network))
      (more : network.World → LlmGateway floats network → Progress floats network)
      → r ≡ raise e
      → is_uncaught e ≡ true
      → Ended g p e (after_answer floats network p w g 0 0 r more)
  unfolding after_answer proceed Ended
  after_answer-is_uncaught g p w e r more h uncaught =
      rw (h, after_answer, after_error-is_uncaught w g p.name 0 e uncaught) (refl, refl, refl)

  after_provider-threw :
      (e : Thrown) (v : Verdict floats network) (done : Progress floats network)
      (more : network.World → LlmGateway floats network → ℕ → Progress floats network)
      → v ≡ threw e
      → after_provider floats network message stream tenant_id request_id v done more ≡ done
  unfolding after_provider
  after_provider-threw e v done more h = rw (h, after_provider) refl

  attempts-Ended :
      (g : LlmGateway floats network) (p : Provider) (w : network.World) (m : String) (body : Json)
      (e : Thrown) (left : ℕ)
      → (network.post w (chat_post network.getenv p m message stream)).1 ≡ ok body
      → completion_of floats network message stream tenant_id request_id g p m 0 body ≡ raise e
      → is_uncaught e ≡ true
      → Ended g p e
          (attempts floats network message stream tenant_id request_id p m (suc left) 0 w g 0)
  unfolding attempts
  attempts-Ended g p w m body e left sent made uncaught =
      let request = chat_post network.getenv p m message stream in
      after_answer-is_uncaught g p (network.post w request).0 e
        ((network.post w request).1
          >>= completion_of floats network message stream tenant_id request_id g p m 0)
        (λ w' g'. attempts floats network message stream tenant_id request_id p m left 1 w' g' 1)
        (rw sent made) uncaught

  complete_throws :
      (w : network.World) (g : LlmGateway floats network) (model : Option String) (p : Provider)
      (ps : List Provider) (m : String) (body : Json) (e : Thrown)
      → admitted floats network message stream tenant_id request_id w g model ≡ ok (p ∷ ps)
      → chosen_model model p ≡ ok m
      → (network.post w (chat_post network.getenv p m message stream)).1 ≡ ok body
      → completion_of floats network message stream tenant_id request_id g p m 0 body ≡ raise e
      → is_uncaught e ≡ true
      → (let done = complete floats network message stream tenant_id request_id w g model in
          (done.verdict ≡ threw e) × (done.calls ≡ p.name ∷ []) × (done.gateway ≡ g))
  unfolding complete ask_all ask Ended
  complete_throws w g model p ps m body e way chosen sent made uncaught =
      let retries = g.routing_policy.max_retries in
      let more : retries + 1 ≡ suc retries = omega arith in
      let done : Ended g p e
          (ask floats network message stream tenant_id request_id p (chosen_model model p) w g 0) =
        rw (chosen, ask, more) (attempts-Ended g p w m body e retries sent made uncaught) in
      let asked =
        ask floats network message stream tenant_id request_id p (chosen_model model p) w g 0 in
      rw (way, complete)
        (subst (Ended g p e)
          (sym (
            after_provider-threw e asked.verdict asked
              (λ w' g' errors'.
                ask_all floats network message stream tenant_id request_id ps model w' g' errors')
              done.0))
          done)

  -- Where the list "choices" of an answer is empty, its first element raises `IndexError`.
  completion_of_no_choices :
      (g : LlmGateway floats network) (p : Provider) (m : String) (errors : ℕ) (d : Fields)
      → (p.name == "anthropic") ≡ false
      → (p.name == "ollama") ≡ false
      → get_field d "choices" (array (item (object no_fields) no_items)) ≡ array no_items
      → completion_of floats network message stream tenant_id request_id g p m errors (object d)
        ≡ raise index_error
  unfolding completion_of extract_chat_content get_json first_of
  completion_of_no_choices g p m errors d other another empty = rw (other, another, empty) refl

  -- If the first candidate is neither "anthropic" nor "ollama", and the first request, sent to it, is
  -- answered by a dictionary whose "choices" are an empty list, then `IndexError` leaves the call: this
  -- request is the only one, no other candidate is asked, and the gateway is as it was, without a
  -- failure of the provider.
  pub complete-completion_of :
      (w : network.World) (g : LlmGateway floats network) (model : Option String) (p : Provider)
      (ps : List Provider) (m : String) (d : Fields)
      → admitted floats network message stream tenant_id request_id w g model ≡ ok (p ∷ ps)
      → chosen_model model p ≡ ok m
      → (p.name == "anthropic") ≡ false
      → (p.name == "ollama") ≡ false
      → (network.post w (chat_post network.getenv p m message stream)).1 ≡ ok (object d)
      → get_field d "choices" (array (item (object no_fields) no_items)) ≡ array no_items
      → (let done = complete floats network message stream tenant_id request_id w g model in
          (done.verdict ≡ threw index_error) × (done.calls ≡ p.name ∷ []) × (done.gateway ≡ g))
  complete-completion_of w g model p ps m d way chosen other another sent empty =
      complete_throws w g model p ps m (object d) index_error way chosen sent
        (completion_of_no_choices g p m 0 d other another empty) (unfold is_uncaught in refl)
