-- ===== src/Database/ListTable.antt =====
-- A table as a list of its rows: an instance of the interface, for concrete runs.
use mathlib.Core.List.{Memᴰ}
use agi_platform.Prelude.{
  String, ◌==◌, List, [], ◌∷◌, Bool, false, Option, none, some, All, ◌≡◌, refl, sym, if◌then◌else◌,
  arith, eq_iff, eq_refl, Bool-cases, inl, inr, subst,
}
use agi_platform.Database.{unless, Distinct, Table}

module _ {R : Type 0} (key : R → String) where
  unfoldable pub lookup : List R → String → Option R
  lookup [] k = none
  lookup (r ∷ rs) k = if key r == k then some r else lookup rs k

  unfoldable pub replace : List R → R → List R
  replace [] r = r ∷ []
  replace (s ∷ rs) r = if key s == key r then r ∷ rs else s ∷ replace rs r

  unfoldable pub discard : (R → Bool) → List R → List R
  discard p [] = []
  discard p (r ∷ rs) = let rest = discard p rs in if p r then rest else r ∷ rest

  pub lookup-replace :
      (rs : List R) (r : R) (k : String)
      → lookup (replace rs r) k ≡ (if key r == k then some r else lookup rs k)
  unfolding lookup replace
  lookup-replace [] r k = refl
  lookup-replace (s ∷ rs) r k =
      ground
        (arith, lookup-replace rs r k, eq_iff (key s) (key r), eq_iff (key s) k, eq_iff (key r) k)

  All-replace : (P : R → Type 0) (rs : List R) (r : R) → All P rs → P r → All P (replace rs r)
  unfolding replace
  All-replace P [] r a h = (h, tt)
  All-replace P (s ∷ rs) r a h = elim (Bool-cases (key s == key r)) [
    | inl same ↦ rw same (h, a.1)
    | inr other ↦ rw other (a.0, All-replace P rs r a.1 h)
  ]

  pub Distinct-replace : (rs : List R) (r : R) → Distinct key rs → Distinct key (replace rs r)
  unfolding replace
  Distinct-replace [] r d = (tt, tt)
  Distinct-replace (s ∷ rs) r d = elim (Bool-cases (key s == key r)) [
    | inl same ↦
        rw same (
          subst (λ k. All (λ u. (k == key u) ≡ false) rs) ((eq_iff (key s) (key r)).0 same) d.0,
          d.1,
        )
    | inr other ↦
        rw other
          (All-replace (λ u. (key s == key u) ≡ false) rs r d.0 other, Distinct-replace rs r d.1)
  ]

  All-discard : (P : R → Type 0) (p : R → Bool) (rs : List R) → All P rs → All P (discard p rs)
  unfolding discard
  All-discard P p [] a = tt
  All-discard P p (r ∷ rs) a = elim (Bool-cases (p r)) [
    | inl gone ↦ rw gone (All-discard P p rs a.1)
    | inr stays ↦ rw stays (a.0, All-discard P p rs a.1)
  ]

  pub Distinct-discard :
      (p : R → Bool) (rs : List R) → Distinct key rs → Distinct key (discard p rs)
  unfolding discard
  Distinct-discard p [] d = tt
  Distinct-discard p (r ∷ rs) d = elim (Bool-cases (p r)) [
    | inl gone ↦ rw gone (Distinct-discard p rs d.1)
    | inr stays ↦
        rw stays (All-discard (λ u. (key r == key u) ≡ false) p rs d.0, Distinct-discard p rs d.1)
  ]

  -- A key that no row has is not found.
  lookup_absent :
      (k : String) (rs : List R) → All (λ u. (k == key u) ≡ false) rs → lookup rs k ≡ none
  unfolding lookup
  lookup_absent k [] a = refl
  lookup_absent k (r ∷ rs) a =
      ground (arith, lookup_absent k rs a.1, eq_iff k (key r), eq_iff (key r) k)

  pub lookup-discard :
      (p : R → Bool) (rs : List R) (k : String)
      → Distinct key rs
      → lookup (discard p rs) k ≡ unless p (lookup rs k)
  unfolding lookup discard
  lookup-discard p [] k d = refl
  lookup-discard p (r ∷ rs) k d = ground (
    arith,
    lookup-discard p rs k d.1,
    lookup_absent (key r) (discard p rs) (All-discard (λ u. (key r == key u) ≡ false) p rs d.0),
    eq_iff (key r) k,
  )

  pub key_of_lookup : (rs : List R) (k : String) (r : R) → lookup rs k ≡ some r → key r ≡ k
  unfolding lookup
  key_of_lookup [] k r h = cc
  key_of_lookup (s ∷ rs) k r h = ground (arith, key_of_lookup rs k r, eq_iff (key s) k)

  pub mem_of_lookup : (rs : List R) (k : String) (r : R) → lookup rs k ≡ some r → Memᴰ r rs
  unfolding lookup
  mem_of_lookup [] k r h = cc
  mem_of_lookup (s ∷ rs) k r h = elim (Bool-cases (key s == k)) [
    | inl same ↦ Memᴰ.head (let e : r ≡ s = ground arith in e)
    | inr other ↦ Memᴰ.tail (mem_of_lookup rs k r (rw other at h))
  ]

  All-mem : (P : R → Type 0) (rs : List R) (r : R) → All P rs → Memᴰ r rs → P r
  All-mem P [] r a m = elim m [ ]
  All-mem P (s ∷ rs) r a (Memᴰ.head e) = subst P (sym e) a.0
  All-mem P (s ∷ rs) r a (Memᴰ.tail m) = All-mem P rs r a.1 m

  pub lookup_of_mem :
      (rs : List R) (r : R) → Distinct key rs → Memᴰ r rs → lookup rs (key r) ≡ some r
  unfolding lookup
  lookup_of_mem [] r d m = elim m [ ]
  lookup_of_mem (s ∷ rs) r d (Memᴰ.head e) = rw (e, eq_refl) refl
  lookup_of_mem (s ∷ rs) r d (Memᴰ.tail m) =
      rw (All-mem (λ u. (key s == key u) ≡ false) rs r d.0 m) (lookup_of_mem rs r d.1 m)

  abbrev pub add :
      (t : (rs : List R) × Distinct key rs) → R → Option ((rs : List R) × Distinct key rs)
  add (rs, d) r = elim (lookup rs (key r)) [
    | none ↦ some (replace rs r, Distinct-replace rs r d)
    | some _ ↦ none
  ]

  abbrev pub list_table : Table R key
  list_table = record {
    Rows = (rs : List R) × Distinct key rs;
    find = λ t. lookup t.0;
    rows = λ t. t.0;
    put = λ t r. (replace t.0 r, Distinct-replace t.0 r t.1);
    insert = add;
    delete = λ t p. (discard p t.0, Distinct-discard p t.0 t.1);
    find-put = λ t. lookup-replace t.0;
    insert_lem = λ t r. refl;
    find-delete = λ t p k. lookup-discard p t.0 k t.1;
    key_of_find = λ t. key_of_lookup t.0;
    find_of_mem = λ t r. lookup_of_mem t.0 r t.1;
    mem_of_find = λ t. mem_of_lookup t.0;
    distinct = λ t. t.1;
  }
