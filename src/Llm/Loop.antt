-- ===== src/Llm/Loop.antt =====
-- `LLMGateway.complete`: the loops over providers and attempts
-- (agi_platform/llm/core.py).
pub mod Invariants
pub mod Kept
pub mod Budget
pub mod Calls
pub mod Bounds
pub mod Errors
use agi_platform.Prelude.{
  ℕ, zero, suc, ◌+◌, String, ◌==◌, List, [], ◌∷◌, ◌++◌, length, Bool, true, false, not, ◌&&◌,
  Option, none, some, or_else, ltb, eqb, Dict, get, Result, ◌>>=◌, or_raise, ok, raise,
  if◌then◌else◌,
}
use agi_platform.Llm.Json.{Json}
use agi_platform.Llm.Providers.{Provider, ProviderHealth, available}
use agi_platform.Llm.Policies.{
  Floats, Thrown, http_status_error, runtime_error, value_error, transport_error, type_error,
  index_error, key_error, estimate, reserve,
}
use agi_platform.Llm.Adapter.{chat_post, embeddings_post}
use agi_platform.Llm.Extraction.{len_of, extract_embedding}
use agi_platform.Llm.Gateway.{
  Network, Completion, LlmGateway, chosen_model, Embedding, candidate_providers, record_failure,
  pause, completion_of,
}

-- A status that is not worth another attempt.
abbrev pub is_client_error : ℕ → Bool
is_client_error status = ltb status 500 && not (eqb status 429)

module _ (floats : Floats) (network : Network) where
  -- How the attempts at a provider, or the loop over the providers, end.
  pub data Verdict : Type 0 where
    answered : Completion floats network → Verdict
    exhausted : Verdict
    threw : Thrown → Verdict

  pub record Progress : Type 0 where
    pub calls : List String
    pub world : network.World
    pub gateway : LlmGateway floats network
    pub errors : ℕ
    pub verdict : Verdict

  -- What follows an error in an attempt: the loop stops, or tries again.
  pub data Next : Type 0 where
    stops : network.World → LlmGateway floats network → Verdict → Next
    retries : network.World → LlmGateway floats network → Next

  -- The check of the circuit after a failure.
  unfoldable pub while_available :
      network.World → LlmGateway floats network → Option ProviderHealth → Next
  unfolding available
  while_available w g none = stops w g (threw key_error)
  while_available w g (some h) =
      if available h (network.monotonic w) then retries w g else stops w g exhausted

  unfoldable pub after_failure :
      network.World
      → LlmGateway floats network
      → String
      → ℕ
      → Result Thrown (LlmGateway floats network)
      → Next
  unfolding while_available pause
  after_failure w g name attempt (raise e) = stops w g (threw e)
  after_failure w g name attempt (ok g') =
      while_available (pause floats network w g'.routing_policy attempt) g' (get g'.health name)

  unfoldable pub refused :
      network.World → LlmGateway floats network → Result Thrown (LlmGateway floats network) → Next
  refused w g (raise e) = stops w g (threw e)
  refused w g (ok g') = stops w g' exhausted

  -- The handlers of exceptions.
  unfoldable pub after_error :
      network.World → LlmGateway floats network → String → ℕ → Thrown → Next
  unfolding after_failure refused record_failure pause available
  after_error w g name attempt (http_status_error status) =
      if is_client_error status
      then refused w g (record_failure floats network w g name)
      else retries (pause floats network w g.routing_policy attempt) g
  after_error w g name attempt runtime_error =
      after_failure w g name attempt (record_failure floats network w g name)
  after_error w g name attempt value_error =
      after_failure w g name attempt (record_failure floats network w g name)
  after_error w g name attempt transport_error =
      after_failure w g name attempt (record_failure floats network w g name)
  after_error w g name attempt e = stops w g (threw e)

  unfoldable pub proceed :
      String → ℕ → Next → (network.World → LlmGateway floats network → Progress) → Progress
  proceed name errors (stops w g verdict) more = record {
    calls = name ∷ [];
    world = w;
    gateway = g;
    errors = errors;
    verdict = verdict;
  }
  proceed name errors (retries w g) more =
      let rest = more w g in record rest { calls = name ∷ rest.calls }

  -- One attempt, from the answer that it got.
  unfoldable pub after_answer :
      Provider
      → network.World
      → LlmGateway floats network
      → ℕ
      → ℕ
      → Result Thrown (LlmGateway floats network × Completion floats network)
      → (network.World → LlmGateway floats network → Progress)
      → Progress
  unfolding after_error proceed
  after_answer p w g attempt errors (raise e) more =
      proceed p.name (errors + 1) (after_error w g p.name attempt e) more
  after_answer p w g attempt errors (ok (g', completion)) more = record {
    calls = p.name ∷ [];
    world = w;
    gateway = g';
    errors = errors;
    verdict = answered completion;
  }

  module _ (message : String) (stream : Bool) (tenant_id request_id : String) where
    -- The loop over the attempts at a provider, of which so many are left.
    unfoldable pub attempts :
        Provider → String → ℕ → ℕ → network.World → LlmGateway floats network → ℕ → Progress
    unfolding after_answer chat_post completion_of
    attempts p model zero attempt w g errors = record {
      calls = [];
      world = w;
      gateway = g;
      errors = errors;
      verdict = exhausted;
    }
    attempts p model (suc left) attempt w g errors =
        let sent = network.post w (chat_post network.getenv p model message stream) in
        after_answer p sent.0 g attempt errors
          (sent.1
            >>= completion_of floats network message stream tenant_id request_id g p model errors)
          (λ w' g'. attempts p model left (attempt + 1) w' g' (errors + 1))

    -- The attempts at a provider, with the model that is asked of it.
    unfoldable pub ask :
        Provider → Result Thrown String → network.World → LlmGateway floats network → ℕ → Progress
    unfolding attempts
    ask p (raise e) w g errors = record {
      calls = [];
      world = w;
      gateway = g;
      errors = errors;
      verdict = threw e;
    }
    ask p (ok model) w g errors = attempts p model (g.routing_policy.max_retries + 1) 0 w g errors

    unfoldable pub after_provider :
        Verdict → Progress → (network.World → LlmGateway floats network → ℕ → Progress) → Progress
    after_provider exhausted done more =
        let rest = more done.world done.gateway done.errors in
        record rest { calls = done.calls ++ rest.calls }
    after_provider (answered c) done more = done
    after_provider (threw e) done more = done

    -- The loop over the providers.
    unfoldable pub ask_all :
        List Provider → Option String → network.World → LlmGateway floats network → ℕ → Progress
    unfolding ask after_provider chosen_model
    ask_all [] model w g errors = record {
      calls = [];
      world = w;
      gateway = g;
      errors = errors;
      verdict = threw runtime_error;
    }
    ask_all (p ∷ ps) model w g errors =
        let done = ask p (chosen_model model p) w g errors in
        after_provider done.verdict done (λ w' g' errors'. ask_all ps model w' g' errors')

    -- The checks before any provider is asked, with the providers that are to be asked.
    unfoldable pub admitted :
        network.World → LlmGateway floats network → Option String → Result Thrown (List Provider)
    unfolding candidate_providers estimate reserve
    admitted w g model =
        if ltb g.cost_policy.max_tokens_per_request (length (network.split message))
        then raise runtime_error
        else (do
          _ ← reserve floats g.cost_policy tenant_id (
              estimate floats g.cost_policy (length (network.split message))
                g.cost_policy.max_tokens_per_request)
          candidate_providers floats network w g model)

    unfoldable pub complete : network.World → LlmGateway floats network → Option String → Progress
    unfolding admitted ask_all
    complete w g model = elim (admitted w g model) [
      | raise e ↦ record { calls = []; world = w; gateway = g; errors = 0; verdict = threw e }
      | ok ps ↦ ask_all ps model w g 0
    ]
