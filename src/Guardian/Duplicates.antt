-- ===== src/Guardian/Duplicates.antt =====
-- When the guardian reports a duplicate (agi_platform/guardian/core.py).
use mathlib.Core.List.{Memᴰ}
use agi_platform.Prelude.{
  String, List, [], ◌∷◌, true, false, none, some, ◌≡◌, refl, inl, inr, Bool-cases,
}
use agi_platform.Memory.Values.{Values, MemoryRecord}
use agi_platform.Guardian.{
  Ratios, Nearest, nearer, nearest, risk_of, duplicate_of, review_of, MemoryGuardian,
  validate_candidate,
}

-- What is relied on of the similarity: texts that are equal are similar, and comparisons of ratios are those
-- of a linear order.
pub record IsSimilarity (ratios : Ratios) : Type 0 where
  pub equal : (s : String) → ratios.exceeds (ratios.ratio s s) ratios.nine_tenths ≡ true
  pub low : ratios.exceeds ratios.nought ratios.nine_tenths ≡ false
  pub through :
      (a b c : ratios.Ratio)
      → ratios.exceeds a b ≡ true
      → ratios.exceeds b c ≡ true
      → ratios.exceeds a c ≡ true
  pub between :
      (a b c : ratios.Ratio)
      → ratios.exceeds a c ≡ true
      → ratios.exceeds a b ≡ false
      → ratios.exceeds b c ≡ true

module _ (v : Values) (ratios : Ratios) (laws : IsSimilarity ratios) where
  abbrev Above : ratios.Ratio → Type 0
  Above a = ratios.exceeds a ratios.nine_tenths ≡ true

  -- What the nearest record stands for.
  pub data Stands (content : String) (all : List (MemoryRecord v.Float v.Json))
      : Nearest v ratios → Type 0 where
    nothing : Stands content all (record { similarity = ratios.nought; duplicate = none })
    stands :
        (r : MemoryRecord v.Float v.Json)
        → Memᴰ r all
        → Stands content all
            (record { similarity = ratios.ratio content r.content; duplicate = some r })

  nearer-stays :
      (content : String) (m : Nearest v ratios) (r : MemoryRecord v.Float v.Json)
      → Above m.similarity
      → Above (nearer v ratios content m r).similarity
  unfolding nearer
  nearer-stays content m r h =
      elim (Bool-cases (ratios.exceeds (ratios.ratio content r.content) m.similarity)) [
        | inl closer ↦
            rw (closer, nearer)
              (laws.through (ratios.ratio content r.content) m.similarity ratios.nine_tenths closer
                h)
        | inr further ↦ rw (further, nearer) h
      ]

  nearer-Above :
      (content : String) (m : Nearest v ratios) (r : MemoryRecord v.Float v.Json)
      → Above (ratios.ratio content r.content)
      → Above (nearer v ratios content m r).similarity
  unfolding nearer
  nearer-Above content m r h =
      elim (Bool-cases (ratios.exceeds (ratios.ratio content r.content) m.similarity)) [
        | inl closer ↦ rw (closer, nearer) h
        | inr further ↦
            rw (further, nearer)
              (laws.between (ratios.ratio content r.content) m.similarity ratios.nine_tenths h
                further)
      ]

  nearer-Stands :
      (content : String) (all : List (MemoryRecord v.Float v.Json)) (m : Nearest v ratios)
      (r : MemoryRecord v.Float v.Json)
      → Memᴰ r all
      → Stands content all m
      → Stands content all (nearer v ratios content m r)
  unfolding nearer
  nearer-Stands content all m r i h =
      elim (Bool-cases (ratios.exceeds (ratios.ratio content r.content) m.similarity)) [
        | inl closer ↦ rw (closer, nearer) (stands r i)
        | inr further ↦ rw (further, nearer) h
      ]

  nearest-stays :
      (content : String) (m : Nearest v ratios) (rs : List (MemoryRecord v.Float v.Json))
      → Above m.similarity
      → Above (nearest v ratios content m rs).similarity
  unfolding nearest
  nearest-stays content m [] h = h
  nearest-stays content m (r ∷ rs) h =
      nearest-stays content (nearer v ratios content m r) rs (nearer-stays content m r h)

  nearest-Above :
      (content : String) (m : Nearest v ratios) (rs : List (MemoryRecord v.Float v.Json))
      (r : MemoryRecord v.Float v.Json)
      → Memᴰ r rs
      → Above (ratios.ratio content r.content)
      → Above (nearest v ratios content m rs).similarity
  unfolding nearest
  nearest-Above content m [] r i h = elim i [ ]
  nearest-Above content m (q ∷ rs) r (Memᴰ.tail i) h =
      nearest-Above content (nearer v ratios content m q) rs r i h
  nearest-Above content m (q ∷ rs) r (Memᴰ.head e) h =
      let above : Above (ratios.ratio content q.content) = rw (← e) h in
      nearest-stays content (nearer v ratios content m q) rs (nearer-Above content m q above)

  nearest-Stands :
      (content : String) (all : List (MemoryRecord v.Float v.Json)) (m : Nearest v ratios)
      (rs : List (MemoryRecord v.Float v.Json))
      → ((r : MemoryRecord v.Float v.Json) → Memᴰ r rs → Memᴰ r all)
      → Stands content all m
      → Stands content all (nearest v ratios content m rs)
  unfolding nearest
  nearest-Stands content all m [] among h = h
  nearest-Stands content all m (r ∷ rs) among h =
      nearest-Stands content all (nearer v ratios content m r) rs (λ q i. among q (Memᴰ.tail i))
        (nearer-Stands content all m r (among r (Memᴰ.head refl)) h)

  review_of-Above :
      (candidate : MemoryRecord v.Float v.Json) (all : List (MemoryRecord v.Float v.Json))
      (m : Nearest v ratios)
      → Stands candidate.content all m
      → Above m.similarity
      → (r : MemoryRecord v.Float v.Json) × Memᴰ r all
        × ((review_of v ratios candidate m).duplicate_id ≡ some r.id)
        × ((review_of v ratios candidate m).decision ≡ "review")
  unfolding review_of risk_of duplicate_of
  review_of-Above candidate all m nothing h = let low = laws.low in cc
  review_of-Above candidate all m (stands r i) h = (r, i, rw h refl, rw h refl)

  review_of_duplicate :
      (candidate : MemoryRecord v.Float v.Json) (all : List (MemoryRecord v.Float v.Json))
      (m : Nearest v ratios) (id : String)
      → Stands candidate.content all m
      → (review_of v ratios candidate m).duplicate_id ≡ some id
      → (r : MemoryRecord v.Float v.Json) × Memᴰ r all
        × Above (ratios.ratio candidate.content r.content)
  unfolding review_of duplicate_of
  review_of_duplicate candidate all m id nothing h = cc
  review_of_duplicate candidate all m id (stands r i) h =
      elim (Bool-cases
        (ratios.exceeds (ratios.ratio candidate.content r.content) ratios.nine_tenths)) [
          | inl above ↦ (r, i, above)
          | inr below ↦ let absurd = rw below at h in cc
        ]

  -- A candidate is reported as a duplicate, for review, exactly when the existing memories have one whose
  -- content is more similar to it than nine tenths, and what is reported is then the id of a memory.
  pub validate_candidate_lem :
      (g : MemoryGuardian v) (candidate : MemoryRecord v.Float v.Json)
      (existing : List (MemoryRecord v.Float v.Json))
      → (let (_, review) = validate_candidate v ratios g candidate existing in
          ((r : MemoryRecord v.Float v.Json)
            → Memᴰ r existing
            → ratios.exceeds (ratios.ratio candidate.content r.content) ratios.nine_tenths ≡ true
            → (d : MemoryRecord v.Float v.Json) × Memᴰ d existing
              × (review.duplicate_id ≡ some d.id)
              × (review.decision ≡ "review"))
          × ((id : String)
              → review.duplicate_id ≡ some id
              → (r : MemoryRecord v.Float v.Json) × Memᴰ r existing
                × (ratios.exceeds (ratios.ratio candidate.content r.content) ratios.nine_tenths
                    ≡ true)))
  unfolding validate_candidate
  validate_candidate_lem g candidate existing =
      let start : Nearest v ratios = record { similarity = ratios.nought; duplicate = none } in
      let m = nearest v ratios candidate.content start existing in
      let stood = nearest-Stands candidate.content existing start existing (λ q i. i) nothing in
      (
        λ r i h.
            review_of-Above candidate existing m stood
              (nearest-Above candidate.content start existing r i h),
        λ id h. review_of_duplicate candidate existing m id stood h,
      )
