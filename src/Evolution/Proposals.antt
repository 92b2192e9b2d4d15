-- ===== src/Evolution/Proposals.antt =====
-- Which proposals an evaluation makes (agi_platform/evolution/core.py).
use mathlib.Core.List.{Memᴰ}
use agi_platform.Prelude.{
  ◌==◌, [], ◌∷◌, ◌++◌, Bool, true, false, or_else, Dict, get, if◌then◌else◌, ◌≡◌, ◌↔◌, refl, sym,
  ap,
}
use agi_platform.Evolution.{
  Rates, Proposal, failure_proposal, tool_proposal, SelfImprovementEngine, failure_rate,
  proposals_of, evaluate,
}

apart : failure_proposal ≡ tool_proposal → ⊥
apart e =
    let same : ("high" == "high") ≡ ("medium" == "high") =
      ap (λ (p : Proposal). p.priority == "high") e in
    cc

-- A list of at most the two proposals has what its tests let in.
chosen :
    (failing idle : Bool)
    → (let ps =
          (if failing then failure_proposal ∷ [] else [])
          ++ (if idle then tool_proposal ∷ [] else []) in
        (Memᴰ failure_proposal ps ↔ (failing ≡ true)) × (Memᴰ tool_proposal ps ↔ (idle ≡ true)))
chosen true true = ((λ m. refl, λ e. Memᴰ.head refl), (λ m. refl, λ e. Memᴰ.tail (Memᴰ.head refl)))
chosen true false = ((λ m. refl, λ e. Memᴰ.head refl), (λ m. only m, λ e. cc))
  where
    only : Memᴰ tool_proposal (failure_proposal ∷ []) → false ≡ true
    only (Memᴰ.head e) = elim (apart (sym e)) [ ]
    only (Memᴰ.tail m) = elim m [ ]
chosen false true = ((λ m. only m, λ e. cc), (λ m. refl, λ e. Memᴰ.head refl))
  where
    only : Memᴰ failure_proposal (tool_proposal ∷ []) → false ≡ true
    only (Memᴰ.head e) = elim (apart e) [ ]
    only (Memᴰ.tail m) = elim m [ ]
chosen false false = ((λ m. elim m [ ], λ e. cc), (λ m. elim m [ ], λ e. cc))

-- An evaluation proposes to reduce failures exactly when the failure rate exceeds 0.05, and to rank tools again
-- exactly when their effectiveness is below 0.8.
evaluate-proposals_of :
    (rates : Rates) (engine : SelfImprovementEngine rates) (metrics : Dict rates.Rate)
    → (let (_, result) = evaluate rates engine metrics in
        (Memᴰ failure_proposal result.proposals
          ↔ (rates.exceeds (failure_rate rates metrics) rates.five_hundredths ≡ true))
        × (Memᴰ tool_proposal result.proposals ↔ (
            rates.exceeds rates.eight_tenths (or_else (get metrics "tool_effectiveness") rates.one)
            ≡ true)))
unfolding evaluate proposals_of
evaluate-proposals_of rates engine metrics =
    chosen (rates.exceeds (failure_rate rates metrics) rates.five_hundredths)
      (rates.exceeds rates.eight_tenths (or_else (get metrics "tool_effectiveness") rates.one))
