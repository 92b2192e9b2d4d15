-- ===== src/Database.antt =====
-- What the platform relies on of a database table reached through a session (agi_platform/database.py
-- declares the tables; the engine behind them is not the platform's).
pub mod ListTable
pub mod Select
pub mod Rows
use mathlib.Core.List.{Memᴰ}
use agi_platform.Prelude.{
  String, ◌==◌, List, [], ◌∷◌, Bool, true, false, Option, none, some, All, ◌≡◌, if◌then◌else◌,
}

-- `where(p)`
unfoldable pub select {ℓ} : {R : Type ℓ} → (R → Bool) → List R → List R
select p [] = []
select p (r ∷ rs) = let rest = select p rs in if p r then r ∷ rest else rest

-- What is left of a row when the rows with `p` are deleted.
abbrev pub unless {ℓ} : {R : Type ℓ} → (R → Bool) → Option R → Option R
unless p none = none
unless p (some r) = if p r then none else some r

-- No two rows have one key.
abbrev pub Distinct {ℓ} : {R : Type ℓ} → (R → String) → List R → Type 0
Distinct key [] = Unit
Distinct key (r ∷ rs) = All (λ s. (key r == key s) ≡ false) rs × Distinct key rs

-- A table of rows under a primary key. `find` is `session.get`; `put` is `session.merge`, and the
-- flush of a changed row; `insert` is `session.add` of a new row, which fails if the key is taken;
-- `delete` deletes the rows with a property; `rows` is `select` without a condition, in any order.
pub record Table (R : Type 0) (key : R → String) : Type 1 where
  pub Rows : Type 0
  pub find : Rows → String → Option R
  pub rows : Rows → List R
  pub put : Rows → R → Rows
  pub insert : Rows → R → Option Rows
  pub delete : Rows → (R → Bool) → Rows
  pub find-put :
      (t : Rows) (r : R) (k : String) → find (put t r) k ≡ (if key r == k then some r else find t k)
  pub insert_lem :
      (t : Rows) (r : R)
      → insert t r ≡ elim (find t (key r)) [ none ↦ some (put t r) | some _ ↦ none ]
  pub find-delete :
      (t : Rows) (p : R → Bool) (k : String) → find (delete t p) k ≡ unless p (find t k)
  pub key_of_find : (t : Rows) (k : String) (r : R) → find t k ≡ some r → key r ≡ k
  pub find_of_mem : (t : Rows) (r : R) → Memᴰ r (rows t) → find t (key r) ≡ some r
  pub mem_of_find : (t : Rows) (k : String) (r : R) → find t k ≡ some r → Memᴰ r (rows t)
  pub distinct : (t : Rows) → Distinct key (rows t)
