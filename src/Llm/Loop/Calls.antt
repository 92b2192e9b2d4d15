-- ===== src/Llm/Loop/Calls.antt =====
-- How often `complete` asks which providers, and what it enters in the books (agi_platform/llm/core.py).
use agi_platform.Prelude.{ℕ, String, [], ◌∷◌, ◌++◌, Bool, Option, ok, ◌≡◌, refl, ◌∙◌, arith}
use agi_platform.Llm.Json.{Json}
use agi_platform.Llm.Providers.{Provider}
use agi_platform.Llm.Policies.{Floats, reserve, commit}
use agi_platform.Llm.Extraction.{Usage}
use agi_platform.Llm.Gateway.{
  Network, Completion, LlmGateway, record_failure, charge, completion_of,
}
use agi_platform.Llm.Gateway.Answers.{completion_of_inv}
use agi_platform.Llm.Loop.{Verdict, answered, exhausted, threw, complete}
use agi_platform.Llm.Loop.Invariants.{Ends, complete-Ends}

module _ (floats : Floats) (network : Network) (message : String) (stream : Bool)
    (tenant_id request_id : String) where
  -- What the end of a call of `complete` enters in the books of a gateway.
  unfoldable pub IsBooked :
      LlmGateway floats network → Verdict floats network → LlmGateway floats network → Type 0
  IsBooked before (answered c) g =
      (g.usage ≡ before.usage ++ (c ∷ []))
      × (reserve floats before.cost_policy tenant_id c.cost ≡ ok tt)
      × (g.cost_policy ≡ commit floats before.cost_policy tenant_id c.cost)
      × (c.tenant_id ≡ tenant_id)
  IsBooked before exhausted g = (g.usage ≡ before.usage) × (g.cost_policy ≡ before.cost_policy)
  IsBooked before (threw e) g = (g.usage ≡ before.usage) × (g.cost_policy ≡ before.cost_policy)

  record_failure-books :
      (w : network.World) (g g' : LlmGateway floats network) (name : String)
      → record_failure floats network w g name ≡ ok g'
      → (g'.usage ≡ g.usage) × (g'.cost_policy ≡ g.cost_policy)
  unfolding record_failure
  record_failure-books w g g' name h = ground (arith, h)

  charge-books :
      (g g' : LlmGateway floats network) (p : Provider) (model : String) (errors : ℕ) (body : Json)
      (content : String) (usage : Usage) (c : Completion floats network)
      → charge floats network message stream tenant_id request_id g p model errors body content
          usage
        ≡ ok (g', c)
      → IsBooked g (answered c) g'
  unfolding charge IsBooked
  charge-books g g' p model errors body content usage c h = ground (arith, h)

  -- A call that ends with a completion appends that completion to the usage, and charges its cost, which
  -- the budget allowed, to the tenant once. A call that ends without one changes neither the usage nor
  -- what the tenants have spent, however many attempts it made.
  pub complete-IsBooked :
      (w : network.World) (g : LlmGateway floats network) (model : Option String)
      → (let done = complete floats network message stream tenant_id request_id w g model in
          IsBooked g done.verdict done.gateway)
  unfolding IsBooked
  complete-IsBooked w g model =
      let done = complete floats network message stream tenant_id request_id w g model in
      each done.verdict done.gateway (
        complete-Ends floats network message stream tenant_id request_id unchanged
          (λ k c. IsBooked g (answered c) k) fails answers w g model (refl, refl))
    where
      unchanged : LlmGateway floats network → Type 0
      unchanged k = (k.usage ≡ g.usage) × (k.cost_policy ≡ g.cost_policy)

      fails :
          (w : network.World) (k k' : LlmGateway floats network) (name : String)
          → record_failure floats network w k name ≡ ok k'
          → unchanged k
          → unchanged k'
      fails w k k' name e h =
          let (same_usage, same_cost) = record_failure-books w k k' name e in
          (same_usage ∙ h.0, same_cost ∙ h.1)

      answers :
          (k k' : LlmGateway floats network) (p : Provider) (model : String) (errors : ℕ)
          (body : Json) (c : Completion floats network)
          → completion_of floats network message stream tenant_id request_id k p model errors body
            ≡ ok (k', c)
          → unchanged k
          → IsBooked g (answered c) k'
      answers k k' p model errors body c e h =
          let (content, usage, made) =
            completion_of_inv floats network message stream tenant_id request_id k k' p model errors
              body c e in
          let booked = charge-books k k' p model errors body content usage c made in
          rw (← h.0, ← h.1) booked

      each :
          (v : Verdict floats network) (k : LlmGateway floats network)
          → Ends floats network message stream tenant_id request_id unchanged
              (λ k c. IsBooked g (answered c) k)
              fails
              answers
              v
              k
          → IsBooked g v k
      each (answered c) k h = h
      each exhausted k h = h
      each (threw e) k h = h
