-- ===== src/Api/Shared.antt =====
-- The handlers of api/main.py that take no tenant: catalogue, models, sandbox, workflows and governance. They
-- turn what a component raises into an exception of the platform, or leave it to the handler of all others.
-- `PlatformService` passes their arguments on; its telemetry is left out.
pub mod Legacy
use agi_platform.Prelude.{
  ℕ, String, ◌==◌, List, [], ◌∷◌, Bool, true, false, not, ◌&&◌, Option, none, some, leb, Dict,
  Result, or_raise, ok, raise, if◌then◌else◌,
}
use agi_platform.Security.Errors.{not_found, provider, sandbox}
use agi_platform.Readiness.Catalog.{PlatformLevel, KeyError, get_level}
use agi_platform.Orchestration.Documents.{Document}
use agi_platform.Orchestration.Tables
use agi_platform.Orchestration.Store.{StoreError, integrity_error, key_error}
use agi_platform.Orchestration.Engine
use agi_platform.Orchestration.Engine.{Engine}
use agi_platform.Sandbox
use agi_platform.Sandbox.{SandboxFailure, value_error, os_error, RunResult, SandboxLab, System}
use agi_platform.Llm.Policies.{Floats, Thrown}
use agi_platform.Llm.Gateway.{Network, Completion, LlmGateway, Embedding}
use agi_platform.Llm.Loop.{Verdict, answered, exhausted, threw, Progress}
use agi_platform.Llm.Core.{core_complete, core_embeddings}
use agi_platform.Api.Endpoints.{Failure, unhandled, invalid_body, failed, answering}

-- `GET /architecture/levels/{level}`
unfoldable pub level : ℕ → Result Failure PlatformLevel
unfolding get_level failed
level n = elim (get_level n) [ ok l ↦ ok l | raise e ↦ raise (failed not_found) ]

module _ (floats : Floats) (network : Network) where
  pub record ChatRequest : Type 0 where
    pub message : String
    pub model : Option String
    pub stream : Bool

  -- `except Exception`
  unfoldable pub chat_result : Verdict floats network → Result Failure (Completion floats network)
  unfolding failed
  chat_result (answered c) = ok c
  chat_result exhausted = raise (failed provider)
  chat_result (threw e) = raise (failed provider)

  -- `POST /chat`, and `POST /completion`
  unfoldable pub chat :
      network.World
      → LlmGateway floats network
      → ChatRequest
      → network.World × LlmGateway floats network × Result Failure (Completion floats network)
  unfolding chat_result core_complete
  chat w g request =
      let done = core_complete floats network w g request.message request.model request.stream in
      if request.message == ""
      then (w, g, raise invalid_body)
      else (done.world, done.gateway, chat_result done.verdict)

  -- `POST /embeddings`
  unfoldable pub embed :
      network.World → LlmGateway floats network → String → network.World × Result Failure Embedding
  unfolding failed
  embed w g text =
      if text == ""
      then (w, raise invalid_body)
      else answering (λ (e : Thrown). failed provider) (λ (x : Embedding). x)
          (core_embeddings floats network w g text none)

-- `except KeyError`, of the handlers of workflows
unfoldable pub workflow_failure : StoreError → Failure
unfolding failed
workflow_failure key_error = failed not_found
workflow_failure integrity_error = unhandled

module _ (schema : Tables.Schema) (upper : String → String) where
  abbrev some_agents : List String → Option (List String)
  some_agents [] = none
  some_agents (a ∷ as_given) = some (a ∷ as_given)

  -- `POST /orchestrate`: the engine of the service has the default tenant.
  unfoldable pub orchestrate :
      Engine schema
      → String
      → List String
      → ℕ
      → ℕ
      → String
      → Engine schema × Result Failure Document
  orchestrate engine task agents time now event_id =
      if task == ""
      then (engine, raise invalid_body)
      else answering (λ (e : StoreError). unhandled) (λ (doc : Document). doc)
          (Engine.plan schema upper "legacy" engine task (some_agents agents) time now event_id)

  -- `POST /orchestrate/{checkpoint}/execute`
  unfoldable pub orchestrate_execute :
      Tables.Db schema → String → (ℕ → ℕ) → ℕ → String → Tables.Db schema × Result Failure Document
  unfolding workflow_failure
  orchestrate_execute db checkpoint time now event_id =
      answering workflow_failure (λ (doc : Document). doc)
        (Engine.execute schema upper "legacy" db checkpoint time now event_id)

  -- `POST /orchestrate/{checkpoint}/recover`
  unfoldable pub orchestrate_recover :
      Tables.Db schema → String → ℕ → ℕ → String → Tables.Db schema × Result Failure Document
  unfolding workflow_failure
  orchestrate_recover db checkpoint time now event_id =
      answering workflow_failure (λ (doc : Document). doc)
        (Engine.recover schema upper "legacy" db checkpoint time now event_id)

-- `except ValueError`, of the sandbox
unfoldable pub sandbox_failure : SandboxFailure → Failure
unfolding failed
sandbox_failure value_error = failed sandbox
sandbox_failure os_error = unhandled

-- `POST /sandbox/execute`, within the constraints of its model
unfoldable pub sandbox_execute :
    (system : System)
    → system.World
    → SandboxLab
    → List String
    → ℕ
    → system.World × (SandboxLab × Result Failure RunResult)
unfolding sandbox_failure
sandbox_execute system w lab [] timeout_seconds = (w, (lab, raise invalid_body))
sandbox_execute system w lab (name ∷ arguments) timeout_seconds =
    if not (leb 1 timeout_seconds && leb timeout_seconds 30)
    then (w, (lab, raise invalid_body))
    else (let (_, w', ran) = Sandbox.execute system w lab (name ∷ arguments) timeout_seconds in
        (w', answering sandbox_failure (λ (r : RunResult). r) ran))
