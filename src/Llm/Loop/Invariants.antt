-- ===== src/Llm/Loop/Invariants.antt =====
-- What failures keep and a completion ends, a whole call of `complete` ends (agi_platform/llm/core.py).
use agi_platform.Prelude.{
  ℕ, zero, suc, ◌+◌, String, List, [], ◌∷◌, Bool, Option, none, some, get, Bool-cases, Result,
  Result-cases, ◌>>=◌, bind_inv, ok, raise, ◌≡◌, refl, inl, inr,
}
use agi_platform.Llm.Json.{Json}
use agi_platform.Llm.Providers.{Provider, ProviderHealth, available}
use agi_platform.Llm.Policies.{
  Floats, Thrown, http_status_error, runtime_error, value_error, transport_error, type_error,
  index_error, key_error,
}
use agi_platform.Llm.Adapter.{chat_post}
use agi_platform.Llm.Gateway.{
  Network, Completion, LlmGateway, chosen_model, record_failure, pause, completion_of,
}
use agi_platform.Llm.Loop.{
  is_client_error, Verdict, answered, exhausted, threw, Progress, Next, stops, retries,
  while_available, after_answer, after_failure, refused, after_error, proceed, attempts, ask,
  after_provider, ask_all, admitted, complete,
}

module _ (floats : Floats) (network : Network) (message : String) (stream : Bool)
    (tenant_id request_id : String) (P : LlmGateway floats network → Type 0)
    (Q : LlmGateway floats network → Completion floats network → Type 0)
    (fails : (w : network.World) (g g' : LlmGateway floats network) (name : String)
      → record_failure floats network w g name ≡ ok g'
      → P g
      → P g')
    (answers : (g g' : LlmGateway floats network) (p : Provider) (model : String) (errors : ℕ)
        (body : Json) (c : Completion floats network)
      → completion_of floats network message stream tenant_id request_id g p model errors body
        ≡ ok (g', c)
      → P g
      → Q g' c) where
  -- How a call ends: with the second predicate if it has a completion, and with the first if not.
  abbrev pub Ends : Verdict floats network → LlmGateway floats network → Type 0
  Ends (answered c) g = Q g c
  Ends exhausted g = P g
  Ends (threw e) g = P g

  abbrev KeptNext : Next floats network → Type 0
  KeptNext (stops w g verdict) = Ends verdict g
  KeptNext (retries w g) = P g

  while_available-kept :
      (w : network.World) (g : LlmGateway floats network) (h : Option ProviderHealth)
      → P g
      → KeptNext (while_available floats network w g h)
  unfolding while_available
  while_available-kept w g none k = k
  while_available-kept w g (some h) k = elim (Bool-cases (available h (network.monotonic w))) [
    | inl open_yet ↦ rw open_yet k
    | inr shut ↦ rw shut k
  ]

  after_failure-kept :
      (w : network.World) (g : LlmGateway floats network) (name : String) (attempt : ℕ)
      (r : Result Thrown (LlmGateway floats network))
      → P g
      → ((g' : LlmGateway floats network) → r ≡ ok g' → P g')
      → KeptNext (after_failure floats network w g name attempt r)
  unfolding after_failure
  after_failure-kept w g name attempt (raise e) h f = h
  after_failure-kept w g name attempt (ok g') h f =
      while_available-kept (pause floats network w g'.routing_policy attempt) g'
        (get g'.health name) (f g' refl)

  refused-kept :
      (w : network.World) (g : LlmGateway floats network)
      (r : Result Thrown (LlmGateway floats network))
      → P g
      → ((g' : LlmGateway floats network) → r ≡ ok g' → P g')
      → KeptNext (refused floats network w g r)
  unfolding refused
  refused-kept w g (raise e) h f = h
  refused-kept w g (ok g') h f = f g' refl

  after_error-kept :
      (w : network.World) (g : LlmGateway floats network) (name : String) (attempt : ℕ) (e : Thrown)
      → P g
      → KeptNext (after_error floats network w g name attempt e)
  unfolding after_error
  after_error-kept w g name attempt (http_status_error status) h =
      elim (Bool-cases (is_client_error status)) [
        | inl client ↦ rw client (
            refused-kept w g (record_failure floats network w g name) h
              (λ g' e. fails w g g' name e h))
        | inr server ↦ rw server h
      ]
  after_error-kept w g name attempt runtime_error h =
      after_failure-kept w g name attempt (record_failure floats network w g name) h
        (λ g' e. fails w g g' name e h)
  after_error-kept w g name attempt value_error h =
      after_failure-kept w g name attempt (record_failure floats network w g name) h
        (λ g' e. fails w g g' name e h)
  after_error-kept w g name attempt transport_error h =
      after_failure-kept w g name attempt (record_failure floats network w g name) h
        (λ g' e. fails w g g' name e h)
  after_error-kept w g name attempt type_error h = h
  after_error-kept w g name attempt index_error h = h
  after_error-kept w g name attempt key_error h = h

  proceed-kept :
      (name : String) (errors : ℕ) (next : Next floats network)
      (more : network.World → LlmGateway floats network → Progress floats network)
      → KeptNext next
      → ((w : network.World) (g : LlmGateway floats network)
          → P g
          → Ends (more w g).verdict (more w g).gateway)
      → (let done = proceed floats network name errors next more in Ends done.verdict done.gateway)
  unfolding proceed
  proceed-kept name errors (stops w g verdict) more h f = h
  proceed-kept name errors (retries w g) more h f = f w g h

  after_answer-kept :
      (p : Provider) (w : network.World) (g : LlmGateway floats network) (attempt errors : ℕ)
      (r : Result Thrown (LlmGateway floats network × Completion floats network))
      (more : network.World → LlmGateway floats network → Progress floats network)
      → P g
      → ((g' : LlmGateway floats network) (c : Completion floats network) → r ≡ ok (g', c) → Q g' c)
      → ((w : network.World) (g : LlmGateway floats network)
          → P g
          → Ends (more w g).verdict (more w g).gateway)
      → (let done = after_answer floats network p w g attempt errors r more in
          Ends done.verdict done.gateway)
  unfolding after_answer
  after_answer-kept p w g attempt errors (ok (g', c)) more h k f = k g' c refl
  after_answer-kept p w g attempt errors (raise e) more h k f =
      proceed-kept p.name (errors + 1) (after_error floats network w g p.name attempt e) more
        (after_error-kept w g p.name attempt e h) f

  attempts-kept :
      (p : Provider) (model : String) (left attempt : ℕ) (w : network.World)
      (g : LlmGateway floats network) (errors : ℕ)
      → P g
      → (let done =
            attempts floats network message stream tenant_id request_id p model left attempt w g
              errors in
          Ends done.verdict done.gateway)
  unfolding attempts
  attempts-kept p model zero attempt w g errors h = h
  attempts-kept p model (suc left) attempt w g errors h =
      let sent = network.post w (chat_post network.getenv p model message stream) in
      after_answer-kept p sent.0 g attempt errors
        (sent.1
          >>= completion_of floats network message stream tenant_id request_id g p model errors)
        (λ w' g'.
          attempts floats network message stream tenant_id request_id p model left (attempt + 1) w'
            g' (errors + 1))
        h
        (λ g' c e.
          let (body, _, made) =
            bind_inv sent.1
              (completion_of floats network message stream tenant_id request_id g p model errors)
              (g', c) e in
          answers g g' p model errors body c made h)
        (λ w' g'. attempts-kept p model left (attempt + 1) w' g' (errors + 1))

  pub ask-Ends :
      (p : Provider) (model : Result Thrown String) (w : network.World)
      (g : LlmGateway floats network) (errors : ℕ)
      → P g
      → (let done = ask floats network message stream tenant_id request_id p model w g errors in
          Ends done.verdict done.gateway)
  unfolding ask
  ask-Ends p (raise e) w g errors h = h
  ask-Ends p (ok model) w g errors h =
      attempts-kept p model (g.routing_policy.max_retries + 1) 0 w g errors h

  after_provider-kept :
      (v : Verdict floats network) (done : Progress floats network)
      (more : network.World → LlmGateway floats network → ℕ → Progress floats network)
      → v ≡ done.verdict
      → Ends done.verdict done.gateway
      → ((w : network.World) (g : LlmGateway floats network) (errors : ℕ)
          → P g
          → Ends (more w g errors).verdict (more w g errors).gateway)
      → (let end = after_provider floats network message stream tenant_id request_id v done more in
          Ends end.verdict end.gateway)
  unfolding after_provider
  after_provider-kept (answered c) done more e h f = h
  after_provider-kept exhausted done more e h f =
      let kept : P done.gateway = rw (← e) at h in f done.world done.gateway done.errors kept
  after_provider-kept (threw t) done more e h f = h

  ask_all-kept :
      (ps : List Provider) (model : Option String) (w : network.World)
      (g : LlmGateway floats network) (errors : ℕ)
      → P g
      → (let done =
            ask_all floats network message stream tenant_id request_id ps model w g errors in
          Ends done.verdict done.gateway)
  unfolding ask_all
  ask_all-kept [] model w g errors h = h
  ask_all-kept (p ∷ ps) model w g errors h =
      let done =
        ask floats network message stream tenant_id request_id p (chosen_model model p) w g
          errors in
      after_provider-kept done.verdict done
        (λ w' g' errors'.
          ask_all floats network message stream tenant_id request_id ps model w' g' errors')
        refl (ask-Ends p (chosen_model model p) w g errors h)
        (λ w' g' errors'. ask_all-kept ps model w' g' errors')

  pub complete-Ends :
      (w : network.World) (g : LlmGateway floats network) (model : Option String)
      → P g
      → (let done = complete floats network message stream tenant_id request_id w g model in
          Ends done.verdict done.gateway)
  unfolding complete
  complete-Ends w g model h =
      elim (Result-cases (admitted floats network message stream tenant_id request_id w g model)) [
        | inr (e, no_way) ↦ rw (no_way, complete) h
        | inl (ps, way) ↦ rw (way, complete) (ask_all-kept ps model w g 0 h)
      ]

  -- An end with the same predicate on either side.
  pub Ends_same :
      ((g : LlmGateway floats network) (c : Completion floats network) → Q g c → P g)
      → (v : Verdict floats network) (g : LlmGateway floats network) → Ends v g
      → P g
  Ends_same f (answered c) g h = f g c h
  Ends_same f exhausted g h = h
  Ends_same f (threw e) g h = h
