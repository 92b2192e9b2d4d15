-- ===== src/Readiness/Verdicts.antt =====
-- What the statuses mean (agi_platform/readiness.py).
use agi_platform.Prelude.{
  String, List, [], ◌∷◌, length, any, true, false, Option, Result, ok, raise, ◌≡◌, ◌↔◌, ◌⊎◌, refl,
  ap, ◌∙◌, inl, inr, arith, Bool-cases,
}
use agi_platform.Readiness.Catalog.{KeyError, platform_levels}
use agi_platform.Readiness.Controls.{green, red, ControlAssessment}
use agi_platform.Readiness.{
  ReadinessCriterion, fails, fails_critically, blocks, warns, status_of, LevelReadiness, overall,
  level_readiness, platform_ready,
}

fails-fails_critically :
    (criteria : List ReadinessCriterion)
    → any fails criteria ≡ false
    → any fails_critically criteria ≡ false
fails-fails_critically [] h = refl
fails-fails_critically (c ∷ cs) h =
    let rest : any fails cs ≡ false = ground (arith, h) in
    ground (arith, h, fails-fails_critically cs rest)

status_of-blocks :
    (criteria : List ReadinessCriterion) (controls : List ControlAssessment)
    → any blocks controls ≡ true
    → status_of criteria controls ≡ red
unfolding status_of
status_of-blocks criteria controls h = ground (arith, h)

status_of-fails_critically :
    (criteria : List ReadinessCriterion) (controls : List ControlAssessment)
    → any fails_critically criteria ≡ true
    → status_of criteria controls ≡ red
unfolding status_of
status_of-fails_critically criteria controls h = ground (arith, h)

red_inv :
    (criteria : List ReadinessCriterion) (controls : List ControlAssessment)
    → status_of criteria controls ≡ red
    → (any fails_critically criteria ≡ true) ⊎ (any blocks controls ≡ true)
unfolding status_of
red_inv criteria controls h = elim (Bool-cases (any fails_critically criteria)) [
  | inl critical ↦ inl critical
  | inr fine ↦ elim (Bool-cases (any blocks controls)) [
    | inl blocked ↦ inr blocked
    | inr passed ↦ ground (arith, h, fine, passed)
  ]
]

green_inv :
    (criteria : List ReadinessCriterion) (controls : List ControlAssessment)
    → status_of criteria controls ≡ green
    → (any fails criteria ≡ false) × (any warns controls ≡ false) × (any blocks controls ≡ false)
unfolding status_of
green_inv criteria controls h = ground (arith, h)

green_of :
    (criteria : List ReadinessCriterion) (controls : List ControlAssessment)
    → any fails criteria ≡ false
    → any warns controls ≡ false
    → any blocks controls ≡ false
    → status_of criteria controls ≡ green
unfolding status_of
green_of criteria controls passed quiet free =
    ground (arith, fails-fails_critically criteria passed, passed, quiet, free)

-- A level is red exactly when a critical criterion fails or a critical control is red, and green exactly when
-- every criterion passes, no control is yellow and no critical control is red.
pub status_of_lem :
    (criteria : List ReadinessCriterion) (controls : List ControlAssessment)
    → ((status_of criteria controls ≡ red)
        ↔ ((any fails_critically criteria ≡ true) ⊎ (any blocks controls ≡ true)))
      × ((status_of criteria controls ≡ green) ↔ (
          (any fails criteria ≡ false)
          × (any warns controls ≡ false)
          × (any blocks controls ≡ false)))
status_of_lem criteria controls = (
  (
    red_inv criteria controls,
    λ e. elim e [
      | inl critical ↦ status_of-fails_critically criteria controls critical
      | inr blocked ↦ status_of-blocks criteria controls blocked
    ],
  ),
  (green_inv criteria controls, λ h. green_of criteria controls h.0 h.1 h.2),
)

abbrev IsRedFirst : List LevelReadiness → Type 0
IsRedFirst [] = ⊥
IsRedFirst (l ∷ ls) = (l.status ≡ status_of l.criteria l.controls) × (any blocks l.controls ≡ true)

overall-IsRedFirst :
    (levels : List LevelReadiness) → IsRedFirst levels → overall levels ≡ "not-ready"
unfolding overall
overall-IsRedFirst [] h = elim h [ ]
overall-IsRedFirst (l ∷ ls) h =
    let is_so : l.status ≡ red = h.0 ∙ status_of-blocks l.criteria l.controls h.1 in
    rw (is_so, overall) refl

abbrev levels_of : Result KeyError (List LevelReadiness) → List LevelReadiness
levels_of (ok levels) = levels
levels_of (raise e) = []

-- Whatever modules can be imported, the platform reports "not-ready", with the status of twelve levels.
platform_ready_lem :
    (import_module : String → Option String)
    → (levels : List LevelReadiness) × (platform_ready import_module ≡ ok ("not-ready", levels))
      × (length levels ≡ length platform_levels)
unfolding platform_ready level_readiness
platform_ready_lem import_module =
    let levels : List LevelReadiness = levels_of (level_readiness import_module) in
    (levels, ap (λ s. ok (s, levels)) (overall-IsRedFirst levels (refl, refl)), refl)
