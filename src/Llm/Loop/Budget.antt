-- ===== src/Llm/Loop/Budget.antt =====
-- What completions cost the tenants (agi_platform/llm/core.py).
use agi_platform.Prelude.{
  ℕ, String, ◌==◌, Bool, false, Option, get-put, ok, if◌then◌else◌, ◌≡◌, ◌≢◌, refl, inl, inr, arith,
  eq_iff, Bool-cases,
}
use agi_platform.Llm.Json.{Json}
use agi_platform.Llm.Providers.{Provider}
use agi_platform.Llm.Policies.{Floats, CostPolicy, spent, reserve, commit}
use agi_platform.Llm.Gateway.{
  Network, Completion, LlmGateway, record_failure, charge, completion_of,
}
use agi_platform.Llm.Extraction.{Usage}
use agi_platform.Llm.Gateway.Answers.{completion_of_inv}
use agi_platform.Llm.Loop.{complete}
use agi_platform.Llm.Loop.Kept.{complete-kept}

module _ (floats : Floats) where
  -- No tenant has spent more than the budget.
  pub record IsWithinBudget (policy : CostPolicy floats) : Type 0 where
    pub within :
        (tenant : String)
        → floats.exceeds (spent floats policy tenant) policy.tenant_budget_usd ≡ false

  spent-commit :
      (policy : CostPolicy floats) (tenant other : String) (cost : floats.Float)
      → spent floats (commit floats policy tenant cost) other ≡ (
          if tenant == other
          then floats.add (spent floats policy tenant) cost
          else spent floats policy other)
  unfolding spent commit
  spent-commit policy tenant other cost = ground (
    arith,
    get-put policy.spent_by_tenant tenant other (floats.add (spent floats policy tenant) cost),
  )

  reserve_inv :
      (policy : CostPolicy floats) (tenant : String) (cost : floats.Float)
      → reserve floats policy tenant cost ≡ ok tt
      → floats.exceeds (floats.add (spent floats policy tenant) cost) policy.tenant_budget_usd
        ≡ false
  unfolding reserve
  reserve_inv policy tenant cost h = ground (arith, h)

  budget-commit :
      (policy : CostPolicy floats) (tenant : String) (cost : floats.Float)
      → (commit floats policy tenant cost).tenant_budget_usd ≡ policy.tenant_budget_usd
  unfolding commit
  budget-commit policy tenant cost = refl

  IsWithinBudget-commit :
      (policy : CostPolicy floats) (tenant : String) (cost : floats.Float)
      → reserve floats policy tenant cost ≡ ok tt
      → IsWithinBudget policy
      → IsWithinBudget (commit floats policy tenant cost)
  unfolding spent
  IsWithinBudget-commit policy tenant cost allowed h = record {
    within = λ other. elim (Bool-cases (tenant == other)) [
      | inl same ↦
          rw (budget-commit policy tenant cost, spent-commit policy tenant other cost, same)
            (reserve_inv policy tenant cost allowed)
      | inr differs ↦
          rw (budget-commit policy tenant cost, spent-commit policy tenant other cost, differs)
            (h.within other)
    ];
  }

  module _ (network : Network) where
    record_failure-cost :
        (w : network.World) (g g' : LlmGateway floats network) (name : String)
        → record_failure floats network w g name ≡ ok g'
        → g'.cost_policy ≡ g.cost_policy
    unfolding record_failure
    record_failure-cost w g g' name h = ground (arith, h)

    module _ (message : String) (stream : Bool) (tenant_id request_id : String) where
      charge-cost :
          (g g' : LlmGateway floats network) (p : Provider) (model : String) (errors : ℕ)
          (body : Json) (content : String) (usage : Usage) (c : Completion floats network)
          → charge floats network message stream tenant_id request_id g p model errors body content
              usage
            ≡ ok (g', c)
          → (g'.cost_policy ≡ commit floats g.cost_policy tenant_id c.cost)
            × (reserve floats g.cost_policy tenant_id c.cost ≡ ok tt)
      unfolding charge
      charge-cost g g' p model errors body content usage c h = ground (arith, h)

      completion_of-cost :
          (g g' : LlmGateway floats network) (p : Provider) (model : String) (errors : ℕ)
          (body : Json) (c : Completion floats network)
          → completion_of floats network message stream tenant_id request_id g p model errors body
            ≡ ok (g', c)
          → (g'.cost_policy ≡ commit floats g.cost_policy tenant_id c.cost)
            × (reserve floats g.cost_policy tenant_id c.cost ≡ ok tt)
      completion_of-cost g g' p model errors body c h =
          let (content, usage, made) =
            completion_of_inv floats network message stream tenant_id request_id g g' p model errors
              body c h in
          charge-cost g g' p model errors body content usage c made

      -- A completion takes no tenant over the budget, whatever the providers answer.
      pub complete-IsWithinBudget :
          (w : network.World) (g : LlmGateway floats network) (model : Option String)
          → IsWithinBudget g.cost_policy
          → IsWithinBudget
              (complete floats network message stream tenant_id request_id w g
                model).gateway.cost_policy
      complete-IsWithinBudget =
          complete-kept floats network message stream tenant_id request_id
            (λ g. IsWithinBudget g.cost_policy)
            (λ w g g' name e h. rw (record_failure-cost w g g' name e) h)
            (λ g g' p model errors body c e h.
              let (made, allowed) = completion_of-cost g g' p model errors body c e in
              rw made (IsWithinBudget-commit g.cost_policy tenant_id c.cost allowed h))

      -- A completion charges its tenant alone.
      pub complete-keeps_others :
          (w : network.World) (g : LlmGateway floats network) (model : Option String)
          (other : String)
          → tenant_id ≢ other
          → spent floats
              (complete floats network message stream tenant_id request_id w g
                model).gateway.cost_policy
              other
            ≡ spent floats g.cost_policy other
      complete-keeps_others w g model other differs =
          complete-kept floats network message stream tenant_id request_id
            (λ k. spent floats k.cost_policy other ≡ spent floats g.cost_policy other)
            (λ w k k' name e h. rw (record_failure-cost w k k' name e) h)
            (λ k k' p model errors body c e h.
              let (made, _) = completion_of-cost k k' p model errors body c e in
              let apart : (tenant_id == other) ≡ false =
                ground (arith, differs, eq_iff tenant_id other) in
              rw (made, spent-commit k.cost_policy tenant_id other c.cost, apart) h)
            w g model refl
