-- ===== src/Llm/Core.antt =====
-- `LLMCore` (agi_platform/llm/core.py): the gateway with the providers of the environment. Once it is
-- made, its providers and its gateway's are one dictionary, and so are the two lists of usage.
use agi_platform.Prelude.{
  String, List, [], ◌∷◌, Bool, Option, none, some, or_else, Dict, get, put, Result, ◌>>=◌, or_raise,
  ok,
}
use agi_platform.Llm.Providers
use agi_platform.Llm.Providers.{Provider, provider, ProviderHealth, RoutingPolicy}
use agi_platform.Llm.Policies.{Floats, Thrown, key_error, CostPolicy}
use agi_platform.Llm.Gateway.{Network, LlmGateway, new_gateway, candidate_providers, Embedding}
use agi_platform.Llm.Loop.{Progress, complete}
use agi_platform.Llm.Embeddings.{embeddings, first_provider}

-- The providers that `__post_init__` sets up when none are given.
unfoldable pub default_providers : (String → Option String) → List Provider
default_providers getenv =
    provider "openai" ("gpt-4.1" ∷ "gpt-4.1-mini" ∷ []) 10
      (or_else (getenv "OPENAI_BASE_URL") "https://api.openai.com") (some "OPENAI_API_KEY")
    ∷ record (provider "anthropic" ("claude-3-5-sonnet-latest" ∷ []) 20
        (or_else (getenv "ANTHROPIC_BASE_URL") "https://api.anthropic.com")
        (some "ANTHROPIC_API_KEY")) { chat_path = "/v1/messages" }
    ∷ provider "gemini" ("gemini-1.5-pro" ∷ []) 30
        (or_else (getenv "GEMINI_BASE_URL") "https://generativelanguage.googleapis.com")
        (some "GEMINI_API_KEY")
    ∷ provider "openrouter" ("openrouter/auto" ∷ []) 40
        (or_else (getenv "OPENROUTER_BASE_URL") "https://openrouter.ai/api")
        (some "OPENROUTER_API_KEY")
    ∷ record (provider "ollama" ("llama3" ∷ []) 50 (or_else (getenv "OLLAMA_BASE_URL") "") none) {
      chat_path = "/api/chat";
      embeddings_path = "/api/embeddings";
    }
    ∷ provider "vllm" ("vllm-local" ∷ []) 60 (or_else (getenv "VLLM_BASE_URL") "") none
    ∷ provider "lm-studio" ("lm-studio-local" ∷ []) 70 (or_else (getenv "LM_STUDIO_BASE_URL") "")
        none
    ∷ []

-- `self.providers.update({provider.name: provider ...})`
unfoldable pub add_providers : Dict Provider → List Provider → Dict Provider
add_providers d [] = d
add_providers d (p ∷ ps) = add_providers (put d p.name p) ps

providers_or_default : (String → Option String) → Dict Provider → Dict Provider
unfolding default_providers add_providers
providers_or_default getenv [] = add_providers [] (default_providers getenv)
providers_or_default getenv (e ∷ es) = e ∷ es

pub record ModelEntry : Type 0 where
  pub models : List String
  pub configured : Bool
  pub base_url : String
  pub health : String

module _ (floats : Floats) (network : Network) where
  -- `LLMCore(providers)`, with the default policies
  unfoldable pub new_core :
      Dict Provider → RoutingPolicy → CostPolicy floats → LlmGateway floats network
  unfolding providers_or_default new_gateway
  new_core providers routing cost =
      new_gateway floats network (providers_or_default network.getenv providers) routing cost

  -- The entries of "providers" in `models`.
  unfoldable pub model_entries :
      Dict ProviderHealth → Dict Provider → Result Thrown (Dict ModelEntry)
  unfolding Providers.configured
  model_entries health [] = ok []
  model_entries health ((name, p) ∷ ps) =
      let rest = model_entries health ps in
      (do
        h ← or_raise key_error (get health name)
        entries ← rest
        ok (
            (
              name,
              record {
                models = p.models;
                configured = Providers.configured network.getenv p;
                base_url = p.base_url;
                health = h.last_status;
              },
            )
            ∷ entries))

  unfoldable pub models : LlmGateway floats network → Result Thrown (Dict ModelEntry)
  unfolding model_entries
  models g = model_entries g.health g.providers

  unfoldable pub route :
      network.World → LlmGateway floats network → Option String → Result Thrown Provider
  unfolding candidate_providers first_provider
  route w g requested_model = do
    ps ← candidate_providers floats network w g requested_model
    first_provider floats network ps

  -- `LLMCore.complete`, which passes no tenant and no request id
  unfoldable pub core_complete :
      network.World
      → LlmGateway floats network
      → String
      → Option String
      → Bool
      → Progress floats network
  unfolding complete
  core_complete w g message model stream =
      complete floats network message stream "legacy" "" w g model

  -- `LLMCore.embeddings`
  unfoldable pub core_embeddings :
      network.World
      → LlmGateway floats network
      → String
      → Option String
      → network.World × Result Thrown Embedding
  unfolding embeddings
  core_embeddings w g content model = embeddings floats network w g content model
