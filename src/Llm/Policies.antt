-- ===== src/Llm/Policies.antt =====
-- `CostPolicy` (agi_platform/llm/core.py), over floating-point numbers of which nothing is assumed.
use agi_platform.Prelude.{
  ℕ, ◌+◌, String, Bool, or_else, Dict, get, put, Result, ok, raise, if◌then◌else◌,
}

-- `ratio` is the true division of two integers.
pub record Floats : Type 1 where
  pub Float : Type 0
  pub nought : Float
  pub add : Float → Float → Float
  pub times : Float → Float → Float
  pub ratio : ℕ → ℕ → Float
  pub exceeds : Float → Float → Bool

-- What the gateway raises: the errors that its loop catches besides the status errors of HTTP
-- (`RuntimeError`, `ValueError` and those of the transport), and those that it does not.
pub data Thrown : Type 0 where
  http_status_error : ℕ → Thrown
  runtime_error value_error transport_error : Thrown
  type_error index_error key_error : Thrown

module _ (floats : Floats) where
  pub record CostPolicy : Type 0 where
    pub max_tokens_per_request : ℕ
    pub tenant_budget_usd : floats.Float
    pub spent_by_tenant : Dict floats.Float
    pub price_per_1k_tokens : floats.Float

  unfoldable pub estimate : CostPolicy → ℕ → ℕ → floats.Float
  estimate policy tokens_in tokens_out =
      floats.times (floats.ratio (tokens_in + tokens_out) 1000) policy.price_per_1k_tokens

  -- `self.spent_by_tenant.get(tenant_id, 0.0)`
  unfoldable pub spent : CostPolicy → String → floats.Float
  spent policy tenant = or_else (get policy.spent_by_tenant tenant) floats.nought

  unfoldable pub reserve : CostPolicy → String → floats.Float → Result Thrown (Unit {0})
  unfolding spent
  reserve policy tenant cost =
      if floats.exceeds (floats.add (spent policy tenant) cost) policy.tenant_budget_usd
      then raise runtime_error
      else ok tt

  unfoldable pub commit : CostPolicy → String → floats.Float → CostPolicy
  unfolding spent
  commit policy tenant cost = record policy {
    spent_by_tenant = put policy.spent_by_tenant tenant (floats.add (spent policy tenant) cost);
  }
