-- ===== src/Tests/Llm.antt =====
-- The theorems on completions, with two providers in three worlds: one that answers, one whose servers
-- fail, and one whose answers have no choices (agi_platform/llm/core.py).
use mathlib.Core.List.{Memᴰ}
use agi_platform.Prelude.{
  ℕ, suc, ◌+◌, ◌*◌, ◌≤◌, String, [], ◌∷◌, length, true, false, none, some, ltb, Dict, get, contains,
  values, Result, ok, raise, ◌≡◌, ◌↔◌, refl, inl, arith,
}
use agi_platform.Llm.Json.{Json, text, array, object, no_items, item, no_fields, field, get_field}
use agi_platform.Llm.Providers.{Provider, provider, default_routing}
use agi_platform.Llm.Adapter.{HttpPost}
use agi_platform.Llm.Policies.{Floats, Thrown, http_status_error, index_error, CostPolicy, spent}
use agi_platform.Llm.Gateway.{
  Network, LlmGateway, new_gateway, given, candidate_providers, chosen_model,
}
use agi_platform.Llm.Gateway.Candidates.{Ascending}
use agi_platform.Llm.Gateway.Candidates.Chosen.{
  supports, permits, IsUsable, candidate_providers_lem,
}
use agi_platform.Llm.Loop.{threw, admitted, complete}
use agi_platform.Llm.Loop.Budget.{IsWithinBudget, complete-IsWithinBudget}
use agi_platform.Llm.Loop.Calls.{IsBooked, complete-IsBooked}
use agi_platform.Llm.Loop.Bounds.{complete-length}
use agi_platform.Llm.Loop.Errors.{IsServerError, complete-is_client_error, complete-completion_of}

-- Costs that count tokens.
abbrev floats : Floats
floats = record {
  Float = ℕ;
  nought = 0;
  add = λ a b. a + b;
  times = λ a b. a * b;
  ratio = λ n m. n;
  exceeds = λ a b. ltb b a;
}

-- A network that always gives the same answer. Its world is a clock.
abbrev network : Result Thrown Json → Network
network answer = record {
  World = ℕ;
  monotonic = λ w. w;
  post = λ w r. (suc w, answer);
  sleep = λ w n. w + n;
  getenv = λ name. some "key";
  split = λ s. s ∷ [];
  int_of_text = λ s. none;
}

abbrev said : String → Json
said s = object (
    field "choices"
      (array (
        item (object (field "message" (object (field "content" (text s) no_fields)) no_fields))
          no_items))
      no_fields)

abbrev no_choices : Json
no_choices = object (field "choices" (array no_items) no_fields)

abbrev answering : Network
answering = network (ok (said "Hello"))

abbrev silent : Network
silent = network (ok no_choices)

abbrev failing : Network
failing = network (raise (http_status_error 503))

abbrev providers : Dict Provider
providers =
    (
      "anthropic",
      provider "anthropic" ("claude" ∷ []) 20 "https://api.anthropic.com" (some "A_KEY"),
    )
    ∷ (
      "openai",
      provider "openai" ("gpt" ∷ "mini" ∷ []) 10 "https://api.openai.com/" (some "O_KEY"),
    )
    ∷ []

abbrev costs : CostPolicy floats
costs = record {
  max_tokens_per_request = 50;
  tenant_budget_usd = 100;
  spent_by_tenant = [];
  price_per_1k_tokens = 1;
}

abbrev gateway : (n : Network) → LlmGateway floats n
gateway n = new_gateway floats n providers default_routing costs

within_costs : IsWithinBudget floats costs
unfolding spent get
within_costs = record { within = λ tenant. refl }

all_fail : (w : ℕ) (r : HttpPost) → IsServerError (failing.post w r).1
unfolding IsServerError
all_fail w r = (503, refl, inl (omega arith))

-- The provider of the lower number is asked first, and answers.
asked_first :
    (complete floats answering "Hi" false "t" "r" 7 (gateway answering) none).calls ≡ "openai" ∷ []
unfolding complete new_gateway get
asked_first = refl

-- Every provider is asked three times.
asked_often : length (complete floats failing "Hi" false "t" "r" 7 (gateway failing) none).calls ≡ 6
unfolding complete new_gateway get
asked_often = refl

candidate_providers_lem_example :
    (permits default_routing (given (some "gpt")) ≡ true)
    × Ascending
        (provider "openai" ("gpt" ∷ "mini" ∷ []) 10 "https://api.openai.com/" (some "O_KEY") ∷ [])
    × (1 ≤ 2)
    × ((p : Provider)
        → Memᴰ p (
            provider "openai" ("gpt" ∷ "mini" ∷ []) 10 "https://api.openai.com/" (some "O_KEY")
            ∷ [])
          ↔ (IsUsable floats answering 7 (gateway answering).health (values providers) p
              × (supports (given (some "gpt")) p ≡ true)))
unfolding candidate_providers new_gateway get contains
candidate_providers_lem_example =
    candidate_providers_lem floats answering 7 (gateway answering) (some "gpt")
      (provider "openai" ("gpt" ∷ "mini" ∷ []) 10 "https://api.openai.com/" (some "O_KEY") ∷ [])
      refl

complete-IsWithinBudget_example :
    IsWithinBudget floats
      (complete floats answering "Hi" false "t" "r" 7 (gateway answering) none).gateway.cost_policy
unfolding new_gateway
complete-IsWithinBudget_example =
    complete-IsWithinBudget floats answering "Hi" false "t" "r" 7 (gateway answering) none
      within_costs

complete-IsBooked_example :
    (let done = complete floats answering "Hi" false "t" "r" 7 (gateway answering) none in
      IsBooked floats answering "Hi" false "t" "r" (gateway answering) done.verdict done.gateway)
complete-IsBooked_example =
    complete-IsBooked floats answering "Hi" false "t" "r" 7 (gateway answering) none

complete-length_example :
    length (complete floats failing "Hi" false "t" "r" 7 (gateway failing) none).calls ≤ (2 + 1) * 2
unfolding new_gateway
complete-length_example = complete-length floats failing "Hi" false "t" "r" 7 (gateway failing) none

complete-is_client_error_example :
    (complete floats failing "Hi" false "t" "r" 7 (gateway failing) none).gateway ≡ gateway failing
complete-is_client_error_example =
    complete-is_client_error floats failing "Hi" false "t" "r" all_fail 7 (gateway failing) none

complete-completion_of_example :
    (let done = complete floats silent "Hi" false "t" "r" 7 (gateway silent) none in
      (done.verdict ≡ threw index_error)
      × (done.calls ≡ "openai" ∷ [])
      × (done.gateway ≡ gateway silent))
unfolding admitted new_gateway get chosen_model get_field
complete-completion_of_example =
    complete-completion_of floats silent "Hi" false "t" "r" 7 (gateway silent) none
      (provider "openai" ("gpt" ∷ "mini" ∷ []) 10 "https://api.openai.com/" (some "O_KEY"))
      (provider "anthropic" ("claude" ∷ []) 20 "https://api.anthropic.com" (some "A_KEY") ∷ [])
      "gpt" (field "choices" (array no_items) no_fields) refl refl refl refl refl refl
