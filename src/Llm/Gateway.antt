-- ===== src/Llm/Gateway.antt =====
-- `LLMGateway` (agi_platform/llm/core.py). The network around it is a state: it answers requests, sleeps
-- and has a clock. `calls` lists the names of the providers that a call asks, in order; the timings of a
-- record are left out.
pub mod Answers
pub mod Candidates
use agi_platform.Prelude.{
  ℕ, zero, suc, ◌+◌, ◌*◌, ◌^◌, String, ◌==◌, List, [], ◌∷◌, ◌++◌, map, length, Bool, true, false,
  not, ◌&&◌, ◌||◌, Option, none, some, or_else, leb, ltb, eqb, contains, Dict, get, put, Result,
  ◌>>=◌, or_raise, ok, raise, if◌then◌else◌,
}
use agi_platform.Llm.Json.{Json, text, array, no_items}
use agi_platform.Llm.Providers.{
  Provider, configured, ProviderHealth, new_health, available, RoutingPolicy,
}
use agi_platform.Llm.Policies.{
  Floats, Thrown, http_status_error, runtime_error, value_error, transport_error, type_error,
  index_error, key_error, CostPolicy, estimate, reserve, commit,
}
use agi_platform.Llm.Adapter.{HttpPost, chat_post, embeddings_post}
use agi_platform.Llm.Extraction.{
  got, extract_chat_content, Usage, extract_usage, len_of, extract_embedding,
}

-- `post` is `SecureHTTPClient.post` with `raise_for_status` and `json`.
pub record Network : Type 1 where
  pub World : Type 0
  pub monotonic : World → ℕ
  pub post : World → HttpPost → World × Result Thrown Json
  pub sleep : World → ℕ → World
  pub getenv : String → Option String
  pub split : String → List String
  pub int_of_text : String → Option ℕ

-- `sorted(..., key=priority)`
unfoldable pub insert_provider : Provider → List Provider → List Provider
insert_provider p [] = p ∷ []
insert_provider p (q ∷ qs) =
    if ltb q.priority p.priority then q ∷ insert_provider p qs else p ∷ q ∷ qs

unfoldable pub sort_providers : List Provider → List Provider
unfolding insert_provider
sort_providers [] = []
sort_providers (p ∷ ps) = insert_provider p (sort_providers ps)

-- A text that is given and not empty.
abbrev pub given : Option String → Option String
given none = none
given (some s) = if s == "" then none else some s

-- `model or provider.models[0]`
unfoldable pub chosen_model : Option String → Provider → Result Thrown String
chosen_model model p = elim (given model) [
  | some m ↦ ok m
  | none ↦ elim p.models [ [] ↦ raise index_error | m ∷ _ ↦ ok m ]
]

unfoldable pub supporting : String → List Provider → List Provider
supporting model [] = []
supporting model (p ∷ ps) =
    let rest = supporting model ps in if contains model p.models then p ∷ rest else rest

pub record Embedding : Type 0 where
  pub provider : String
  pub model : String
  pub embedding : Json
  pub dimensions : ℕ

abbrev pub without_models : List String → Bool
without_models [] = true
without_models (_ ∷ _) = false

module _ (floats : Floats) (network : Network) where
  -- The record of a completion.
  pub record Completion : Type 0 where
    pub provider : String
    pub model : String
    pub request_id : String
    pub tenant_id : String
    pub response : String
    pub streaming : Bool
    pub tool_calls : Json
    pub usage : Usage
    pub cost : floats.Float
    pub errors : ℕ
    pub raw_provider_response : Json
    pub status : String

  pub record LlmGateway : Type 0 where
    pub providers : Dict Provider
    pub routing_policy : RoutingPolicy
    pub cost_policy : CostPolicy floats
    pub health : Dict ProviderHealth
    pub usage : List Completion

  unfoldable pub new_gateway : Dict Provider → RoutingPolicy → CostPolicy floats → LlmGateway
  new_gateway providers routing_policy cost_policy = record {
    providers = providers;
    routing_policy = routing_policy;
    cost_policy = cost_policy;
    health = map (λ e. (e.0, new_health "unknown")) providers;
    usage = [];
  }

  -- The providers that are configured and available.
  unfoldable pub usable :
      network.World → Dict ProviderHealth → Dict Provider → Result Thrown (List Provider)
  unfolding configured available
  usable w health [] = ok []
  usable w health ((_, p) ∷ ps) =
      let rest = usable w health ps in
      if not (configured network.getenv p) then rest else (do
        h ← or_raise key_error (get health p.name)
        found ← rest
        ok (if available h (network.monotonic w) then p ∷ found else found))

  unfoldable pub non_empty : List Provider → Result Thrown (List Provider)
  non_empty [] = raise runtime_error
  non_empty (p ∷ ps) = ok (p ∷ ps)

  -- The check of the allowlist, and the choice of the providers that have the model.
  unfoldable pub for_model :
      RoutingPolicy → Option String → List Provider → Result Thrown (List Provider)
  unfolding supporting
  for_model policy none ps = ok ps
  for_model policy (some model) ps =
      if not (without_models policy.model_allowlist) && not (contains model policy.model_allowlist)
      then raise runtime_error
      else ok (supporting model ps)

  -- `_candidate_providers`
  unfoldable pub candidate_providers :
      network.World → LlmGateway → Option String → Result Thrown (List Provider)
  unfolding usable sort_providers for_model non_empty
  candidate_providers w g requested_model = do
    found ← usable w g.health g.providers
    chosen ← for_model g.routing_policy (given requested_model) (sort_providers found)
    non_empty chosen

  opened : ProviderHealth → RoutingPolicy → ℕ → ProviderHealth
  opened h policy now =
      if leb policy.circuit_breaker_failures (h.failures + 1)
      then record h {
        failures = h.failures + 1;
        last_status = "unhealthy";
        circuit_open_until = now + policy.circuit_breaker_cooldown;
      }
      else record h { failures = h.failures + 1; last_status = "unhealthy" }

  -- `_record_failure`
  unfoldable pub record_failure : network.World → LlmGateway → String → Result Thrown LlmGateway
  unfolding opened
  record_failure w g name = do
    h ← or_raise key_error (get g.health name)
    ok (record g { health = put g.health name (opened h g.routing_policy (network.monotonic w)) })

  -- `_sleep`
  unfoldable pub pause : network.World → RoutingPolicy → ℕ → network.World
  pause w policy attempt =
      if ltb attempt policy.max_retries
      then network.sleep w (policy.backoff_milliseconds * 2 ^ attempt)
      else w

  -- The content must be a text that is not empty.
  unfoldable pub content_text : Json → Result Thrown String
  content_text (text s) = if s == "" then raise runtime_error else ok s
  content_text _ = raise runtime_error

  module _ (message : String) (stream : Bool) (tenant_id request_id : String) where
    -- The record of a completion that the budget allows, which is charged.
    unfoldable pub charge :
        LlmGateway
        → Provider
        → String
        → ℕ
        → Json
        → String
        → Usage
        → Result Thrown (LlmGateway × Completion)
    unfolding estimate reserve commit
    charge g p model errors body content usage = do
      let cost = estimate floats g.cost_policy usage.input_tokens usage.output_tokens
      _ ← reserve floats g.cost_policy tenant_id cost
      tool_calls ← got body "tool_calls" (array no_items)
      let completion : Completion = record {
        provider = p.name;
        model = model;
        request_id = request_id;
        tenant_id = tenant_id;
        response = content;
        streaming = stream;
        tool_calls = tool_calls;
        usage = usage;
        cost = cost;
        errors = errors;
        raw_provider_response = body;
        status = "succeeded";
      }
      ok (
        record g {
          cost_policy = commit floats g.cost_policy tenant_id cost;
          health = put g.health p.name (new_health "healthy");
          usage = g.usage ++ (completion ∷ []);
        },
        completion,
      )

    -- What the body of a `try` makes of the answer.
    unfoldable pub completion_of :
        LlmGateway → Provider → String → ℕ → Json → Result Thrown (LlmGateway × Completion)
    unfolding content_text extract_chat_content extract_usage charge
    completion_of g p model errors body = do
      value ← extract_chat_content p body
      content ← content_text value
      usage ← extract_usage network.split network.int_of_text body message content
      charge g p model errors body content usage
