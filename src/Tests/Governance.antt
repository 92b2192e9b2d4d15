-- ===== src/Tests/Governance.antt =====
-- The theorem on governance (agi_platform/governance/core.py).
use agi_platform.Prelude.{
  ℕ, ◌≤◌, ◌<◌, List, [], ◌∷◌, length, Bool, true, false, some, ltb, eqb, raise, if◌then◌else◌, ◌≡◌,
  ◌↔◌, arith,
}
use agi_platform.Governance.{index_error, review}
use agi_platform.Governance.Numbering.{status_of, Op, proposal, verdict, run, review-run}

-- Scores in percent.
abbrev is_risky : ℕ → Bool
is_risky n = ltb 49 n

abbrev calls : List (Op ℕ is_risky)
calls =
    proposal "Shard" "Split the tables." 80
    ∷ proposal "Rename" "A word." 10
    ∷ verdict 1 "bob" true
    ∷ []

review-run_example :
    (let g = run ℕ is_risky (record { decisions = []; reviews = [] }) calls in
      let (g', result) = review ℕ is_risky g 2 "eve" false in
      ((result ≡ raise index_error) ↔ (length g.decisions < 2))
      × (2 ≤ length g.decisions
          → status_of ℕ is_risky 2 g'.decisions ≡ (
              if eqb 2 2
              then some (if false then "approved" else "rejected")
              else status_of ℕ is_risky 2 g.decisions)))
review-run_example = review-run ℕ is_risky calls 2 "eve" false 2 (omega arith)
