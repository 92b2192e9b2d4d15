-- ===== src/Llm/Providers.antt =====
-- `Provider`, `ProviderHealth` and `RoutingPolicy` (agi_platform/llm/core.py). `getenv` stands for
-- `os.getenv`; times count in milliseconds.
use agi_platform.Prelude.{
  ℕ, String, ◌==◌, List, [], ◌∷◌, Bool, true, not, ◌&&◌, Option, none, some, leb, contains,
  if◌then◌else◌,
}

pub record Provider : Type 0 where
  pub name : String
  pub models : List String
  pub priority : ℕ
  pub base_url : String
  pub api_key_env : Option String
  pub chat_path : String
  pub embeddings_path : String

-- A provider with the paths that are the defaults.
abbrev pub provider : String → List String → ℕ → String → Option String → Provider
provider name models priority base_url api_key_env = record {
  name = name;
  models = models;
  priority = priority;
  base_url = base_url;
  api_key_env = api_key_env;
  chat_path = "/v1/chat/completions";
  embeddings_path = "/v1/embeddings";
}

abbrev pub local_providers : List String
local_providers = "ollama" ∷ "vllm" ∷ "lm-studio" ∷ []

module _ (getenv : String → Option String) where
  -- `Provider.api_key`
  unfoldable pub api_key : Provider → Option String
  api_key p = elim p.api_key_env [
    | none ↦ none
    | some name ↦ if name == "" then none else getenv name
  ]

  -- `Provider.configured`
  unfoldable pub configured : Provider → Bool
  unfolding api_key
  configured p = elim (api_key p) [
    | some _ ↦ true
    | none ↦ contains p.name local_providers && not (p.base_url == "")
  ]

pub record ProviderHealth : Type 0 where
  pub failures : ℕ
  pub circuit_open_until : ℕ
  pub last_status : String

-- `ProviderHealth()`, with its status
abbrev pub new_health : String → ProviderHealth
new_health status = record { failures = 0; circuit_open_until = 0; last_status = status }

-- `ProviderHealth.available`, at a reading of the clock
unfoldable pub available : ProviderHealth → ℕ → Bool
available h now = leb h.circuit_open_until now

pub record RoutingPolicy : Type 0 where
  pub max_retries : ℕ
  pub backoff_milliseconds : ℕ
  pub circuit_breaker_failures : ℕ
  pub circuit_breaker_cooldown : ℕ
  pub model_allowlist : List String

-- `RoutingPolicy()`
abbrev pub default_routing : RoutingPolicy
default_routing = record {
  max_retries = 2;
  backoff_milliseconds = 50;
  circuit_breaker_failures = 3;
  circuit_breaker_cooldown = 30000;
  model_allowlist = [];
}
