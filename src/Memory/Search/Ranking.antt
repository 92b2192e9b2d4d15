-- ===== src/Memory/Search/Ranking.antt =====
-- The sort by score and the cut at a limit keep the best (agi_platform/memory/core.py).
use mathlib.Core.List.{Memᴰ}
use agi_platform.Prelude.{
  ℕ, zero, suc, ◌≤◌, List, [], ◌∷◌, length, ltb, All, ◌≡◌, refl, ap, ◌⊎◌, inl, inr, arith,
  Bool-cases,
}
use agi_platform.Database.Select.{All-mem}
use agi_platform.Memory.Search.{Ranked, insert_ranked, sort_ranked, take}

-- Every entry scores at least as high as those after it.
pub Descending : {Float Json : Type 0} → List (Ranked Float Json) → Type 0
Descending [] = Unit
Descending (x ∷ xs) = All (λ y. y.common ≤ x.common) xs × Descending xs

module _ {Float Json : Type 0} where
  mem-insert :
      (x y : Ranked Float Json) (ys : List (Ranked Float Json))
      → Memᴰ y (x ∷ ys)
      → Memᴰ y (insert_ranked x ys)
  unfolding insert_ranked
  mem-insert x y [] m = m
  mem-insert x y (z ∷ zs) m = elim (Bool-cases (ltb x.common z.common)) [
    | inr here ↦ rw here m
    | inl later ↦ rw later (pushed x y z zs m (mem-insert x y zs))
  ]
    where
      pushed :
          (x y z : Ranked Float Json) (zs : List (Ranked Float Json))
          → Memᴰ y (x ∷ z ∷ zs)
          → (Memᴰ y (x ∷ zs) → Memᴰ y (insert_ranked x zs))
          → Memᴰ y (z ∷ insert_ranked x zs)
      pushed x y z zs (Memᴰ.head e) ih = Memᴰ.tail (ih (Memᴰ.head e))
      pushed x y z zs (Memᴰ.tail (Memᴰ.head e)) ih = Memᴰ.head e
      pushed x y z zs (Memᴰ.tail (Memᴰ.tail m)) ih = Memᴰ.tail (ih (Memᴰ.tail m))

  All-insert :
      (P : Ranked Float Json → Type 0) (x : Ranked Float Json) (ys : List (Ranked Float Json))
      → P x
      → All P ys
      → All P (insert_ranked x ys)
  unfolding insert_ranked
  All-insert P x [] p a = (p, a)
  All-insert P x (z ∷ zs) p a = elim (Bool-cases (ltb x.common z.common)) [
    | inr here ↦ rw here (p, a)
    | inl later ↦ rw later (a.0, All-insert P x zs p a.1)
  ]

  pub mem-sort :
      (y : Ranked Float Json) (xs : List (Ranked Float Json)) → Memᴰ y xs → Memᴰ y (sort_ranked xs)
  unfolding sort_ranked
  mem-sort y [] m = m
  mem-sort y (x ∷ xs) (Memᴰ.head e) = mem-insert x y (sort_ranked xs) (Memᴰ.head e)
  mem-sort y (x ∷ xs) (Memᴰ.tail m) = mem-insert x y (sort_ranked xs) (Memᴰ.tail (mem-sort y xs m))

  pub All-sort :
      (P : Ranked Float Json → Type 0) (xs : List (Ranked Float Json))
      → All P xs
      → All P (sort_ranked xs)
  unfolding sort_ranked
  All-sort P [] a = a
  All-sort P (x ∷ xs) a = All-insert P x (sort_ranked xs) a.0 (All-sort P xs a.1)

  All-weaken :
      (n m : ℕ) (xs : List (Ranked Float Json))
      → n ≤ m
      → All (λ y. y.common ≤ n) xs
      → All (λ y. y.common ≤ m) xs
  All-weaken n m [] le a = tt
  All-weaken n m (x ∷ xs) le a = (omega (arith, le, a.0), All-weaken n m xs le a.1)

  Descending-insert :
      (x : Ranked Float Json) (ys : List (Ranked Float Json))
      → Descending ys
      → Descending (insert_ranked x ys)
  unfolding insert_ranked Descending
  Descending-insert x [] d = (tt, tt)
  Descending-insert x (z ∷ zs) d = elim (Bool-cases (ltb x.common z.common)) [
    | inr here ↦
        let le : z.common ≤ x.common = ground arith in
        rw here ((le, All-weaken z.common x.common zs le d.0), d)
    | inl later ↦
        rw later (
          All-insert (λ y. y.common ≤ z.common) x zs (ground arith) d.0,
          Descending-insert x zs d.1,
        )
  ]

  pub Descending-sort : (xs : List (Ranked Float Json)) → Descending (sort_ranked xs)
  unfolding sort_ranked Descending
  Descending-sort [] = tt
  Descending-sort (x ∷ xs) = Descending-insert x (sort_ranked xs) (Descending-sort xs)

  pub All-take :
      (P : Ranked Float Json → Type 0) (n : ℕ) (xs : List (Ranked Float Json))
      → All P xs
      → All P (take n xs)
  unfolding take
  All-take P zero xs a = tt
  All-take P (suc n) [] a = tt
  All-take P (suc n) (x ∷ xs) a = (a.0, All-take P n xs a.1)

  pub Descending-take :
      (n : ℕ) (xs : List (Ranked Float Json)) → Descending xs → Descending (take n xs)
  unfolding take Descending
  Descending-take zero xs d = tt
  Descending-take (suc n) [] d = tt
  Descending-take (suc n) (x ∷ xs) d =
      (All-take (λ y. y.common ≤ x.common) n xs d.0, Descending-take n xs d.1)

  pub length-take : (n : ℕ) (xs : List (Ranked Float Json)) → length (take n xs) ≤ n
  unfolding take
  length-take zero xs = omega arith
  length-take (suc n) [] = omega arith
  length-take (suc n) (x ∷ xs) = omega (arith, length-take n xs)

  -- What is cut off scores no higher than what is taken, which is as many as the limit.
  pub take_best :
      (n : ℕ) (xs : List (Ranked Float Json)) (y : Ranked Float Json)
      → Descending xs
      → Memᴰ y xs
      → Memᴰ y (take n xs) ⊎ ((length (take n xs) ≡ n) × All (λ x. y.common ≤ x.common) (take n xs))
  unfolding take Descending
  take_best zero xs y d m = inr (refl, tt)
  take_best (suc n) [] y d m = elim m [ ]
  take_best (suc n) (x ∷ xs) y d (Memᴰ.head e) = inl (Memᴰ.head e)
  take_best (suc n) (x ∷ xs) y d (Memᴰ.tail m) = elim (take_best n xs y d.1 m) [
    | inl taken ↦ inl (Memᴰ.tail taken)
    | inr (full, least) ↦ inr (ap suc full, (All-mem (λ z. z.common ≤ x.common) xs y d.0 m, least))
  ]
