-- ===== src/Governance.antt =====
-- `ArchitectureGovernance` (agi_platform/governance/core.py). Risk scores are a parameter, of which
-- `is_risky` says whether they reach 0.5.
pub mod Numbering
use agi_platform.Prelude.{
  ℕ, zero, suc, ◌+◌, ◌-◌, String, List, [], ◌∷◌, ◌++◌, length, Bool, true, false, Option, none,
  some, ltb, eqb, Result, ok, raise, if◌then◌else◌,
}

pub data GovernanceError : Type 0 where
  index_error : GovernanceError

pub record Review : Type 0 where
  pub decision_id : ℕ
  pub approver : String
  pub approved : Bool

-- `items[i]` of Python, for an index that is one less than the number: number 0 reads the last item.
unfoldable pub position : ℕ → ℕ → Option ℕ
position count zero = if eqb count 0 then none else some (count - 1)
position count (suc i) = if ltb i count then some i else none

module _ (Score : Type 0) (is_risky : Score → Bool) where
  pub record Decision : Type 0 where
    pub id : ℕ
    pub title : String
    pub body : String
    pub risk_score : Score
    pub status : String

  pub record ArchitectureGovernance : Type 0 where
    pub decisions : List Decision
    pub reviews : List Review

  unfoldable pub propose :
      ArchitectureGovernance → String → String → Score → ArchitectureGovernance × Decision
  propose g title body risk_score =
      let decision : Decision = record {
        id = length g.decisions + 1;
        title = title;
        body = body;
        risk_score = risk_score;
        status = if is_risky risk_score then "needs-review" else "approved";
      } in
      (record g { decisions = g.decisions ++ (decision ∷ []) }, decision)

  -- `decision["status"] = status`, of the decision at a position
  unfoldable pub set_status : ℕ → String → List Decision → List Decision
  set_status i status [] = []
  set_status zero status (d ∷ ds) = record d { status = status } ∷ ds
  set_status (suc i) status (d ∷ ds) = d ∷ set_status i status ds

  unfoldable pub review :
      ArchitectureGovernance
      → ℕ
      → String
      → Bool
      → ArchitectureGovernance × Result GovernanceError Review
  unfolding position set_status
  review g decision_id approver approved = elim (position (length g.decisions) decision_id) [
    | none ↦ (g, raise index_error)
    | some i ↦
        let entry : Review = record {
          decision_id = decision_id;
          approver = approver;
          approved = approved;
        } in
        (
          record {
            decisions = set_status i (if approved then "approved" else "rejected") g.decisions;
            reviews = g.reviews ++ (entry ∷ []);
          },
          ok entry,
        )
  ]
