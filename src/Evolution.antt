-- ===== src/Evolution.antt =====
-- `SelfImprovementEngine` (agi_platform/evolution/core.py). Of the floats, the constants of the code and its
-- operations are given.
pub mod Proposals
use mathlib.Core.List.{Memᴰ}
use agi_platform.Prelude.{
  String, List, [], ◌∷◌, ◌++◌, Bool, true, false, Option, or_else, Dict, get, if◌then◌else◌, ◌≡◌,
  ◌↔◌, refl, inl, inr, arith, Bool-cases,
}

pub record Rates : Type 1 where
  pub Rate : Type 0
  pub nought : Rate
  pub one : Rate
  pub five_hundredths : Rate
  pub eight_tenths : Rate
  pub minus : Rate → Rate → Rate
  pub larger : Rate → Rate → Rate
  pub exceeds : Rate → Rate → Bool

pub record Proposal : Type 0 where
  pub title : String
  pub priority : String
  pub expected_metric : String

abbrev pub failure_proposal : Proposal
failure_proposal = record {
  title = "Reduce workflow failure rate";
  priority = "high";
  expected_metric = "failure_rate";
}

abbrev pub tool_proposal : Proposal
tool_proposal = record {
  title = "Re-rank low-performing tools";
  priority = "medium";
  expected_metric = "tool_effectiveness";
}

module _ (rates : Rates) where
  pub record Evaluation : Type 0 where
    pub metrics : Dict rates.Rate
    pub proposals : List Proposal
    pub agent_effectiveness : rates.Rate

  pub record SelfImprovementEngine : Type 0 where
    pub evaluations : List Evaluation

  unfoldable pub success_rate : Dict rates.Rate → rates.Rate
  success_rate metrics = or_else (get metrics "success_rate") rates.one

  -- The failure rate that is given, or what the success rate leaves.
  unfoldable pub failure_rate : Dict rates.Rate → rates.Rate
  unfolding success_rate
  failure_rate metrics =
      or_else (get metrics "failure_rate")
        (rates.larger rates.nought (rates.minus rates.one (success_rate metrics)))

  unfoldable pub proposals_of : Dict rates.Rate → List Proposal
  unfolding failure_rate
  proposals_of metrics =
      (if rates.exceeds (failure_rate metrics) rates.five_hundredths
        then failure_proposal ∷ []
        else [])
      ++ (if rates.exceeds rates.eight_tenths (or_else (get metrics "tool_effectiveness") rates.one)
          then tool_proposal ∷ []
          else [])

  unfoldable pub evaluate :
      SelfImprovementEngine → Dict rates.Rate → SelfImprovementEngine × Evaluation
  unfolding proposals_of
  evaluate engine metrics =
      let result : Evaluation = record {
        metrics = metrics;
        proposals = proposals_of metrics;
        agent_effectiveness = or_else (get metrics "agent_effectiveness") (success_rate metrics);
      } in
      (record { evaluations = engine.evaluations ++ (result ∷ []) }, result)
