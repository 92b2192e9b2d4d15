-- ===== src/Governance/Numbering.antt =====
-- Which decision a review changes (agi_platform/governance/core.py).
use agi_platform.Prelude.{
  ℕ, zero, suc, ◌+◌, ◌≤◌, ◌<◌, String, List, [], ◌∷◌, ◌++◌, length, Bool, Option, none, some, ltb,
  eqb, raise, if◌then◌else◌, ◌≡◌, ◌↔◌, refl, inl, inr, arith, Bool-cases, Option-cases,
}
use agi_platform.Governance.{
  index_error, position, Decision, ArchitectureGovernance, propose, set_status, review,
}

module _ (Score : Type 0) (is_risky : Score → Bool) where
  -- The decisions count from the next number on.
  unfoldable pub Numbered : ℕ → List (Decision Score is_risky) → Type 0
  Numbered n [] = Unit
  Numbered n (d ∷ ds) = (d.id ≡ n + 1) × Numbered (n + 1) ds

  -- The status of the decision of an id.
  unfoldable pub status_of : ℕ → List (Decision Score is_risky) → Option String
  status_of id [] = none
  status_of id (d ∷ ds) = if eqb d.id id then some d.status else status_of id ds

  -- The calls.
  pub data Op : Type 0 where
    proposal : String → String → Score → Op
    verdict : ℕ → String → Bool → Op

  unfoldable pub step :
      ArchitectureGovernance Score is_risky → Op → ArchitectureGovernance Score is_risky
  unfolding propose review
  step g (proposal title body score) = (propose Score is_risky g title body score).0
  step g (verdict id approver approved) = (review Score is_risky g id approver approved).0

  unfoldable pub run :
      ArchitectureGovernance Score is_risky → List Op → ArchitectureGovernance Score is_risky
  unfolding step
  run g [] = g
  run g (o ∷ os) = run (step g o) os

  Numbered-append :
      (n : ℕ) (ds : List (Decision Score is_risky)) (d : Decision Score is_risky)
      → Numbered n ds
      → d.id ≡ n + length ds + 1
      → Numbered n (ds ++ (d ∷ []))
  unfolding Numbered
  Numbered-append n [] d h is_next = (omega (arith, is_next), tt)
  Numbered-append n (e ∷ ds) d h is_next =
      (h.0, Numbered-append (n + 1) ds d h.1 (omega (arith, is_next)))

  Numbered-set_status :
      (n i : ℕ) (status : String) (ds : List (Decision Score is_risky))
      → Numbered n ds
      → Numbered n (set_status Score is_risky i status ds)
  unfolding Numbered set_status
  Numbered-set_status n i status [] h = tt
  Numbered-set_status n zero status (d ∷ ds) h = h
  Numbered-set_status n (suc i) status (d ∷ ds) h =
      (h.0, Numbered-set_status (n + 1) i status ds h.1)

  propose-Numbered :
      (g : ArchitectureGovernance Score is_risky) (title body : String) (score : Score)
      → Numbered 0 g.decisions
      → Numbered 0 (propose Score is_risky g title body score).0.decisions
  unfolding propose
  propose-Numbered g title body score h =
      let d = (propose Score is_risky g title body score).1 in
      Numbered-append 0 g.decisions d h (omega arith)

  review-Numbered :
      (g : ArchitectureGovernance Score is_risky) (id : ℕ) (approver : String) (approved : Bool)
      → Numbered 0 g.decisions
      → Numbered 0 (review Score is_risky g id approver approved).0.decisions
  unfolding review
  review-Numbered g id approver approved h =
      elim (Option-cases (position (length g.decisions) id)) [
        | inl none_there ↦ rw (none_there, review) h
        | inr (i, there) ↦
            rw (there, review)
              (Numbered-set_status 0 i (if approved then "approved" else "rejected") g.decisions h)
      ]

  run-Numbered :
      (g : ArchitectureGovernance Score is_risky) (os : List Op)
      → Numbered 0 g.decisions
      → Numbered 0 (run g os).decisions
  unfolding run step
  run-Numbered g [] h = h
  run-Numbered g (proposal title body score ∷ os) h =
      run-Numbered (propose Score is_risky g title body score).0 os
        (propose-Numbered g title body score h)
  run-Numbered g (verdict id approver approved ∷ os) h =
      run-Numbered (review Score is_risky g id approver approved).0 os
        (review-Numbered g id approver approved h)

  status_of-set_status :
      (n i : ℕ) (status : String) (ds : List (Decision Score is_risky)) (id : ℕ)
      → Numbered n ds
      → i < length ds
      → status_of id (set_status Score is_risky i status ds)
        ≡ (if eqb id (n + i + 1) then some status else status_of id ds)
  unfolding status_of set_status Numbered
  status_of-set_status n i status [] id h lt = ground (arith, lt)
  status_of-set_status n zero status (d ∷ ds) id h lt = ground (arith, h)
  status_of-set_status n (suc i) status (d ∷ ds) id h lt =
      let less : i < length ds = omega (arith, lt) in
      ground (arith, h, status_of-set_status (n + 1) i status ds id h.1 less)

  review_lem :
      (g : ArchitectureGovernance Score is_risky) (i : ℕ) (approver : String) (approved : Bool)
      (other : ℕ)
      → Numbered 0 g.decisions
      → (let (g', result) = review Score is_risky g (suc i) approver approved in
          ((result ≡ raise index_error) ↔ (length g.decisions < suc i))
          × (suc i ≤ length g.decisions
              → status_of other g'.decisions ≡ (
                  if eqb other (suc i)
                  then some (if approved then "approved" else "rejected")
                  else status_of other g.decisions)))
  unfolding review position
  review_lem g i approver approved other h =
      let status : String = if approved then "approved" else "rejected" in
      elim (Bool-cases (ltb i (length g.decisions))) [
        | inl there ↦
            let less : i < length g.decisions = ground (arith, there) in
            let set = status_of-set_status 0 i status g.decisions other h less in
            rw (there, review)
              (
                (λ e. ground (arith, e), λ more. ground (arith, more, less)),
                λ le. ground (arith, set),
              )
        | inr beyond ↦
            let more : length g.decisions ≤ i = ground (arith, beyond) in
            rw (beyond, review)
              ((λ e. omega (arith, more), λ le. refl), λ le. ground (arith, le, more))
      ]

  -- After any calls on an empty governance, a review of a decision by its number, counted from 1, raises
  -- exactly when there are fewer decisions, and sets the status of that decision and of no other.
  pub review-run :
      (os : List Op) (id : ℕ) (approver : String) (approved : Bool) (other : ℕ)
      → 1 ≤ id
      → (let g = run (record { decisions = []; reviews = [] }) os in
          let (g', result) = review Score is_risky g id approver approved in
          ((result ≡ raise index_error) ↔ (length g.decisions < id))
          × (id ≤ length g.decisions
              → status_of other g'.decisions ≡ (
                  if eqb other id
                  then some (if approved then "approved" else "rejected")
                  else status_of other g.decisions)))
  unfolding Numbered
  review-run os zero approver approved other pos = ground (arith, pos)
  review-run os (suc i) approver approved other pos =
      let empty : ArchitectureGovernance Score is_risky = record { decisions = []; reviews = [] } in
      review_lem (run empty os) i approver approved other (run-Numbered empty os tt)
