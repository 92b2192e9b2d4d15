-- ===== src/Prelude/Tests.antt =====
-- Boolean tests on numbers and optional values, the conditional, and results that may raise.
use Prim.Native.Nat.{ℕ, compare, Ordering}
use mathlib.Core.Path.{◌≡◌, refl}
use mathlib.Core.Logic.{◌⊎◌, inl, inr}
use mathlib.Core.Bool.{Bool, true, false, not}
use mathlib.Core.Option.{Option, none, some}

abbrev pub ltb : ℕ → ℕ → Bool
ltb a b = elim (compare a b) [ Ordering.lt ↦ true | _ ↦ false ]

abbrev pub leb : ℕ → ℕ → Bool
leb a b = elim (compare a b) [ Ordering.gt ↦ false | _ ↦ true ]

abbrev pub eqb : ℕ → ℕ → Bool
eqb a b = elim (compare a b) [ Ordering.eq ↦ true | _ ↦ false ]

infix 1 if◌then◌else◌
abbrev pub if◌then◌else◌ {ℓ} : {A : Type ℓ} → Bool → A → A → A
if true then x else y = x
if false then x else y = y

-- To split on a computed value and keep the equation.
pub Bool-cases : (b : Bool) → (b ≡ true) ⊎ (b ≡ false)
Bool-cases true = inl refl
Bool-cases false = inr refl

pub Option-cases {ℓ} : {A : Type ℓ} (o : Option A) → (o ≡ none) ⊎ ((a : A) × (o ≡ some a))
Option-cases none = inl refl
Option-cases (some a) = inr (a, refl)

-- `x or d`, for an optional `x`
abbrev pub or_else {ℓ} : {A : Type ℓ} → Option A → A → A
or_else none d = d
or_else (some a) d = a

-- What a call that may raise gives back: a value, or the exception.
pub data Result {ℓ κ} (E : Type ℓ) (A : Type κ) : Type (ℓ ⊔ κ) where
  ok : A → Result E A
  raise : E → Result E A

pub Result-cases {ℓ κ} :
    {E : Type ℓ} {A : Type κ} (r : Result E A) → ((a : A) × (r ≡ ok a)) ⊎ ((e : E) × (r ≡ raise e))
Result-cases (ok a) = inl (a, refl)
Result-cases (raise e) = inr (e, refl)

infixl 5 ◌>>=◌
abbrev pub ◌>>=◌ {ℓ κ μ} :
    {E : Type ℓ} {A : Type κ} {B : Type μ} → Result E A → (A → Result E B) → Result E B
ok a >>= f = f a
raise e >>= f = raise e

-- `raise e` where there is no value
abbrev pub or_raise {ℓ κ} : {E : Type ℓ} {A : Type κ} → E → Option A → Result E A
or_raise e none = raise e
or_raise e (some a) = ok a

pub bind_inv {ℓ κ μ} :
    {E : Type ℓ} {A : Type κ} {B : Type μ} (m : Result E A) (f : A → Result E B) (b : B)
    → (m >>= f) ≡ ok b
    → (a : A) × (m ≡ ok a) × (f a ≡ ok b)
bind_inv (ok a) f b h = (a, refl, h)
bind_inv (raise e) f b h = cc

pub or_raise_inv {ℓ κ} :
    {E : Type ℓ} {A : Type κ} (e : E) (o : Option A) (a : A) → or_raise e o ≡ ok a → o ≡ some a
or_raise_inv e none a h = cc
or_raise_inv e (some b) a h = cc

pub if_inv {ℓ κ} :
    {E : Type ℓ} {A : Type κ} (b : Bool) (m : Result E A) (e : E) (a : A)
    → (if b then m else raise e) ≡ ok a
    → (b ≡ true) × (m ≡ ok a)
if_inv true m e a h = (refl, h)
if_inv false m e a h = cc

pub unless_inv {ℓ κ} :
    {E : Type ℓ} {A : Type κ} (b : Bool) (m : Result E A) (e : E) (a : A)
    → (if not b then raise e else m) ≡ ok a
    → (b ≡ true) × (m ≡ ok a)
unless_inv true m e a h = (refl, h)
unless_inv false m e a h = cc
