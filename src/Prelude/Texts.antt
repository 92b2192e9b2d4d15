-- ===== src/Prelude/Texts.antt =====
-- `str(n)` of a number, and prefixes and parts of texts.
use Prim.Native.Nat.{ℕ, zero, suc, ◌/◌, ◌%◌}
use Prim.Native.String.{String, ◌++◌}
use mathlib.Core.Path.{◌≡◌, refl}
use Prim.Native.Char.{code}
use mathlib.Core.Bool.{Bool, true, false, ◌&&◌, ◌||◌}
use native.Mathlib.Omega.{arith}
use text.Mathlib.Text.{◌==◌}
use text.Mathlib.TextEquality.{eq_iff}
use agi_platform.Prelude.Tests.{if◌then◌else◌, ltb, eqb}

digit : ℕ → String
digit zero = "0"
digit (suc zero) = "1"
digit (suc (suc zero)) = "2"
digit (suc (suc (suc zero))) = "3"
digit (suc (suc (suc (suc zero)))) = "4"
digit (suc (suc (suc (suc (suc zero))))) = "5"
digit (suc (suc (suc (suc (suc (suc zero)))))) = "6"
digit (suc (suc (suc (suc (suc (suc (suc zero))))))) = "7"
digit (suc (suc (suc (suc (suc (suc (suc (suc zero)))))))) = "8"
digit _ = "9"

-- The number has at most as many digits as the fuel.
decimal_fuel : ℕ → ℕ → String
decimal_fuel zero n = ""
decimal_fuel (suc fuel) n =
    let front = decimal_fuel fuel (n / 10) in if ltb n 10 then digit n else front ++ digit (n % 10)

unfoldable pub decimal : ℕ → String
unfolding digit decimal_fuel
decimal n = decimal_fuel (suc n) n

decimal_runs : decimal 1203 ≡ "1203"
unfolding decimal
decimal_runs = refl

unfoldable pub starts_with : String → String → Bool
starts_with s String.[] = true
starts_with String.[] (String.◌∷◌ c p) = false
starts_with (String.◌∷◌ d s) (String.◌∷◌ c p) = eqb (code c) (code d) && starts_with s p

-- The texts differ at a place that both have.
unfoldable pub diverge : String → String → Bool
diverge String.[] q = false
diverge (String.◌∷◌ c p) String.[] = false
diverge (String.◌∷◌ c p) (String.◌∷◌ d q) =
    let rest = diverge p q in if eqb (code c) (code d) then rest else true

-- A text begins with one of two such texts at most.
pub starts_with-diverge :
    (s p q : String) → diverge p q ≡ true → starts_with s p ≡ true → starts_with s q ≡ false
unfolding starts_with diverge
starts_with-diverge s String.[] q h e = cc
starts_with-diverge s (String.◌∷◌ c p) String.[] h e = cc
starts_with-diverge String.[] (String.◌∷◌ c p) (String.◌∷◌ d q) h e = cc
starts_with-diverge (String.◌∷◌ a s) (String.◌∷◌ c p) (String.◌∷◌ d q) h e =
    ground (arith, starts_with-diverge s p q)

-- A text with a prefix is none of the texts without it.
pub eq-starts_with :
    (s p q : String) → starts_with q p ≡ false → starts_with s p ≡ true → (q == s) ≡ false
eq-starts_with s p q h e = ground (arith, eq_iff q s)

-- `s.isascii()`
unfoldable pub is_ascii : String → Bool
is_ascii String.[] = true
is_ascii (String.◌∷◌ c s) = ltb (code c) 128 && is_ascii s

-- `part in text`
unfoldable pub occurs : String → String → Bool
occurs part String.[] = starts_with String.[] part
occurs part (String.◌∷◌ c text) = starts_with (String.◌∷◌ c text) part || occurs part text

-- `s[:n]`
unfoldable pub prefix : ℕ → String → String
prefix zero s = ""
prefix (suc n) String.[] = ""
prefix (suc n) (String.◌∷◌ c s) = String.◌∷◌ c (prefix n s)
