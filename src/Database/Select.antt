-- ===== src/Database/Select.antt =====
-- What a query by a condition returns.
use mathlib.Core.List.{Memᴰ}
use agi_platform.Prelude.{
  String, ◌==◌, List, [], ◌∷◌, ◌++◌, any, arith, Bool, true, false, All, ◌≡◌, refl, sym, Bool-cases,
  inl, inr, subst,
}
use agi_platform.Database.{select, Distinct}

module _ {R : Type 0} where
  pub select-append :
      (p : R → Bool) (xs ys : List R) → select p (xs ++ ys) ≡ select p xs ++ select p ys
  unfolding select
  select-append p [] ys = refl
  select-append p (x ∷ xs) ys = ground (arith, select-append p xs ys)

  pub any_of_select : (p : R → Bool) (xs : List R) → select p xs ≡ [] → any p xs ≡ false
  unfolding select
  any_of_select p [] h = refl
  any_of_select p (x ∷ xs) h = ground (arith, any_of_select p xs)

  pub All-of_mem : (P : R → Type 0) (rs : List R) → ((r : R) → Memᴰ r rs → P r) → All P rs
  All-of_mem P [] h = tt
  All-of_mem P (r ∷ rs) h = (h r (Memᴰ.head refl), All-of_mem P rs (λ s m. h s (Memᴰ.tail m)))

  pub All-mem : (P : R → Type 0) (rs : List R) (r : R) → All P rs → Memᴰ r rs → P r
  All-mem P [] r a m = elim m [ ]
  All-mem P (s ∷ rs) r a (Memᴰ.head e) = subst P (sym e) a.0
  All-mem P (s ∷ rs) r a (Memᴰ.tail m) = All-mem P rs r a.1 m

  pub mem_of_select :
      (p : R → Bool) (rs : List R) (r : R) → Memᴰ r (select p rs) → Memᴰ r rs × (p r ≡ true)
  unfolding select
  mem_of_select p [] r m = elim m [ ]
  mem_of_select p (s ∷ rs) r m = elim (Bool-cases (p s)) [
    | inl meets ↦ first_or_rest p s rs r meets (mem_of_select p rs r) (rw (meets, select) at m)
    | inr fails ↦ let (m', q) = mem_of_select p rs r (rw (fails, select) at m) in (Memᴰ.tail m', q)
  ]
    where
      first_or_rest :
          (p : R → Bool) (s : R) (rs : List R) (r : R)
          → p s ≡ true
          → (Memᴰ r (select p rs) → Memᴰ r rs × (p r ≡ true))
          → Memᴰ r (s ∷ select p rs)
          → Memᴰ r (s ∷ rs) × (p r ≡ true)
      first_or_rest p s rs r meets ih (Memᴰ.head e) = (Memᴰ.head e, rw e meets)
      first_or_rest p s rs r meets ih (Memᴰ.tail m) = let (m', q) = ih m in (Memᴰ.tail m', q)

  pub mem-select :
      (p : R → Bool) (rs : List R) (r : R) → Memᴰ r rs → p r ≡ true → Memᴰ r (select p rs)
  unfolding select
  mem-select p [] r m q = elim m [ ]
  mem-select p (s ∷ rs) r (Memᴰ.head e) q =
      let meets : p s ≡ true = rw e at q in rw meets (Memᴰ.head e)
  mem-select p (s ∷ rs) r (Memᴰ.tail m) q = elim (Bool-cases (p s)) [
    | inl meets ↦ rw meets (Memᴰ.tail (mem-select p rs r m q))
    | inr fails ↦ rw fails (mem-select p rs r m q)
  ]

  All-select : (P : R → Type 0) (p : R → Bool) (rs : List R) → All P rs → All P (select p rs)
  All-select P p rs a =
      All-of_mem P (select p rs) (λ r m. All-mem P rs r a (mem_of_select p rs r m).0)

  pub Distinct-select :
      (key : R → String) (p : R → Bool) (rs : List R) → Distinct key rs → Distinct key (select p rs)
  unfolding select
  Distinct-select key p [] d = tt
  Distinct-select key p (r ∷ rs) d = elim (Bool-cases (p r)) [
    | inl meets ↦
        rw meets (All-select (λ s. (key r == key s) ≡ false) p rs d.0, Distinct-select key p rs d.1)
    | inr fails ↦ rw fails (Distinct-select key p rs d.1)
  ]
