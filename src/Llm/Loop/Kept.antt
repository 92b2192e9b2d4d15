-- ===== src/Llm/Loop/Kept.antt =====
-- The invariants of a whole call of `complete` (agi_platform/llm/core.py).
use agi_platform.Prelude.{ℕ, String, Bool, Option, ok, ◌≡◌}
use agi_platform.Llm.Json.{Json}
use agi_platform.Llm.Providers.{Provider}
use agi_platform.Llm.Policies.{Floats}
use agi_platform.Llm.Gateway.{Network, Completion, LlmGateway, record_failure, completion_of}
use agi_platform.Llm.Loop.{complete}
use agi_platform.Llm.Loop.Invariants.{Ends_same, complete-Ends}

-- What failures and completions keep, a whole call of `complete` keeps.
pub complete-kept :
    (floats : Floats) (network : Network) (message : String) (stream : Bool)
    (tenant_id request_id : String) (P : LlmGateway floats network → Type 0)
    → ((w : network.World) (g g' : LlmGateway floats network) (name : String)
        → record_failure floats network w g name ≡ ok g'
        → P g
        → P g')
    → ((g g' : LlmGateway floats network) (p : Provider) (model : String) (errors : ℕ) (body : Json)
          (c : Completion floats network)
        → completion_of floats network message stream tenant_id request_id g p model errors body
          ≡ ok (g', c)
        → P g
        → P g')
    → (w : network.World) (g : LlmGateway floats network) (model : Option String) → P g
    → P (complete floats network message stream tenant_id request_id w g model).gateway
complete-kept floats network message stream tenant_id request_id P fails answers w g model h =
    let done = complete floats network message stream tenant_id request_id w g model in
    Ends_same floats network message stream tenant_id request_id P (λ g c. P g) fails answers
      (λ g c h. h) done.verdict done.gateway
      (complete-Ends floats network message stream tenant_id request_id P (λ g c. P g) fails answers
        w g model h)
