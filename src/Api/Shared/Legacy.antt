-- ===== src/Api/Shared/Legacy.antt =====
-- Whom the handlers without a tenant charge (api/main.py).
use agi_platform.Prelude.{String, ◌==◌, ◌≡◌, ◌≢◌, refl, inl, inr, Bool-cases}
use agi_platform.Llm.Policies.{Floats, spent}
use agi_platform.Llm.Gateway.{Network, LlmGateway}
use agi_platform.Llm.Core.{core_complete}
use agi_platform.Llm.Loop.Budget.{complete-keeps_others}
use agi_platform.Api.Shared.{ChatRequest, chat}

-- A chat charges no tenant but "legacy", whoever asks.
chat-keeps_others :
    (floats : Floats) (network : Network) (w : network.World) (g : LlmGateway floats network)
    (request : ChatRequest floats network) (tenant : String)
    → "legacy" ≢ tenant
    → spent floats (chat floats network w g request).1.cost_policy tenant
      ≡ spent floats g.cost_policy tenant
unfolding chat core_complete
chat-keeps_others floats network w g request tenant other =
    elim (Bool-cases (request.message == "")) [
      | inl empty ↦ rw empty refl
      | inr given ↦ rw given (
          complete-keeps_others floats network request.message request.stream "legacy" "" w g
            request.model tenant other)
    ]
