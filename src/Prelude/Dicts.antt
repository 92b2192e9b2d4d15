-- ===== src/Prelude/Dicts.antt =====
-- Python's `dict` with string keys, as the list of its items in insertion order, and membership in
-- a set of strings.
use Prim.Native.String.{String}
use mathlib.Core.Path.{◌≡◌, refl, subst}
use mathlib.Core.Bool.{Bool, true}
use mathlib.Core.Logic.{inl, inr}
use mathlib.Core.Option.{Option, none, some}
use mathlib.Core.List.{List, [], ◌∷◌, map}
use native.Mathlib.Omega.{arith}
use text.Mathlib.Text.{◌==◌}
use text.Mathlib.TextEquality.{eq_iff}
use agi_platform.Prelude.Tests.{if◌then◌else◌, Bool-cases}
use agi_platform.Prelude.Lists.{any, All}

-- `x in xs`
unfoldable pub contains : String → List String → Bool
contains x = any (λ y. y == x)

pub contains_of_All :
    (x : String) (xs ys : List String)
    → All (λ y. contains y ys ≡ true) xs
    → contains x xs ≡ true
    → contains x ys ≡ true
unfolding contains
contains_of_All x [] ys h e = cc
contains_of_All x (y ∷ xs) ys h e = elim (Bool-cases (y == x)) [
  | inl same ↦ subst (λ z. contains z ys ≡ true) ((eq_iff y x).0 same) h.0
  | inr other ↦ contains_of_All x xs ys h.1 (rw other at e)
]

abbrev pub Dict {ℓ} : Type ℓ → Type ℓ
Dict V = List (String × V)

module _ {ℓ} {V : Type ℓ} where
  -- `d.get(k)`
  unfoldable pub get : Dict V → String → Option V
  get [] k = none
  get ((j, v) ∷ d) k = if j == k then some v else get d k

  -- `d[k] = v`: a key keeps its place
  unfoldable pub put : Dict V → String → V → Dict V
  put [] k v = (k, v) ∷ []
  put ((j, w) ∷ d) k v = if j == k then (j, v) ∷ d else (j, w) ∷ put d k v

  pub get-put :
      (d : Dict V) (k j : String) (v : V) → get (put d k v) j ≡ (if k == j then some v else get d j)
  unfolding get put
  get-put [] k j v = refl
  get-put ((i, w) ∷ d) k j v = ground (arith, get-put d k j v, eq_iff i k, eq_iff i j, eq_iff k j)

  abbrev pub values : Dict V → List V
  values = map (λ e. e.1)
