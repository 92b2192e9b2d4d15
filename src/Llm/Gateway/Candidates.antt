-- ===== src/Llm/Gateway/Candidates.antt =====
-- The sort of providers by priority, and the choice of those that have a model (agi_platform/llm/core.py).
pub mod Chosen
use mathlib.Core.List.{Memᴰ}
use agi_platform.Prelude.{
  ℕ, suc, ◌≤◌, ◌+◌, String, ◌==◌, List, [], ◌∷◌, length, Bool, true, false, not, ◌&&◌, Option,
  Option-cases, none, some, contains, Dict, get, values, All, ltb, Result, Result-cases, ◌>>=◌,
  or_raise, ok, raise, if◌then◌else◌, ◌≡◌, ◌↔◌, refl, sym, ap, subst, inl, inr, arith, Bool-cases,
}
use agi_platform.Database.Select.{All-of_mem, All-mem}
use agi_platform.Llm.Providers.{Provider, configured, ProviderHealth, available, RoutingPolicy}
use agi_platform.Llm.Policies.{Floats, Thrown, key_error}
use agi_platform.Llm.Gateway.{
  Network, LlmGateway, insert_provider, sort_providers, given, supporting, usable, for_model,
  non_empty, candidate_providers,
}

-- No provider comes after one of a higher number.
unfoldable pub Ascending : List Provider → Type 0
Ascending [] = Unit
Ascending (p ∷ ps) = All (λ q. p.priority ≤ q.priority) ps × Ascending ps

All-insert :
    (P : Provider → Type 0) (p : Provider) (ps : List Provider)
    → P p
    → All P ps
    → All P (insert_provider p ps)
unfolding insert_provider
All-insert P p [] h a = (h, a)
All-insert P p (q ∷ qs) h a = elim (Bool-cases (ltb q.priority p.priority)) [
  | inl later ↦ rw later (a.0, All-insert P p qs h a.1)
  | inr here ↦ rw here (h, a)
]

pub All-sort : (P : Provider → Type 0) (ps : List Provider) → All P ps → All P (sort_providers ps)
unfolding sort_providers
All-sort P [] a = a
All-sort P (p ∷ ps) a = All-insert P p (sort_providers ps) a.0 (All-sort P ps a.1)

mem-insert : (p q : Provider) (ps : List Provider) → Memᴰ q (p ∷ ps) → Memᴰ q (insert_provider p ps)
unfolding insert_provider
mem-insert p q [] m = m
mem-insert p q (r ∷ rs) m = elim (Bool-cases (ltb r.priority p.priority)) [
  | inr here ↦ rw here m
  | inl later ↦ rw later (pushed p q r rs m (mem-insert p q rs))
]
  where
    pushed :
        (p q r : Provider) (rs : List Provider)
        → Memᴰ q (p ∷ r ∷ rs)
        → (Memᴰ q (p ∷ rs) → Memᴰ q (insert_provider p rs))
        → Memᴰ q (r ∷ insert_provider p rs)
    pushed p q r rs (Memᴰ.head e) ih = Memᴰ.tail (ih (Memᴰ.head e))
    pushed p q r rs (Memᴰ.tail (Memᴰ.head e)) ih = Memᴰ.head e
    pushed p q r rs (Memᴰ.tail (Memᴰ.tail m)) ih = Memᴰ.tail (ih (Memᴰ.tail m))

pub mem-sort : (q : Provider) (ps : List Provider) → Memᴰ q ps → Memᴰ q (sort_providers ps)
unfolding sort_providers
mem-sort q [] m = m
mem-sort q (p ∷ ps) (Memᴰ.head e) = mem-insert p q (sort_providers ps) (Memᴰ.head e)
mem-sort q (p ∷ ps) (Memᴰ.tail m) = mem-insert p q (sort_providers ps) (Memᴰ.tail (mem-sort q ps m))

All-weaken :
    (n m : ℕ) (ps : List Provider)
    → m ≤ n
    → All (λ q. n ≤ q.priority) ps
    → All (λ q. m ≤ q.priority) ps
All-weaken n m [] le a = tt
All-weaken n m (p ∷ ps) le a = (omega (arith, le, a.0), All-weaken n m ps le a.1)

Ascending-insert :
    (p : Provider) (ps : List Provider) → Ascending ps → Ascending (insert_provider p ps)
unfolding insert_provider Ascending
Ascending-insert p [] a = (tt, tt)
Ascending-insert p (q ∷ qs) a = elim (Bool-cases (ltb q.priority p.priority)) [
  | inl later ↦
      rw later (
        All-insert (λ r. q.priority ≤ r.priority) p qs (ground arith) a.0,
        Ascending-insert p qs a.1,
      )
  | inr here ↦
      let le : p.priority ≤ q.priority = ground arith in
      rw here ((le, All-weaken q.priority p.priority qs le a.0), a)
]

pub Ascending-sort : (ps : List Provider) → Ascending (sort_providers ps)
unfolding sort_providers Ascending
Ascending-sort [] = tt
Ascending-sort (p ∷ ps) = Ascending-insert p (sort_providers ps) (Ascending-sort ps)

length-insert :
    (p : Provider) (ps : List Provider) → length (insert_provider p ps) ≡ suc (length ps)
unfolding insert_provider
length-insert p [] = refl
length-insert p (q ∷ qs) = ground (arith, length-insert p qs)

pub length-sort : (ps : List Provider) → length (sort_providers ps) ≡ length ps
unfolding sort_providers
length-sort [] = refl
length-sort (p ∷ ps) = omega (arith, length-insert p (sort_providers ps), length-sort ps)

pub length-supporting :
    (model : String) (ps : List Provider) → length (supporting model ps) ≤ length ps
unfolding supporting
length-supporting model [] = omega arith
length-supporting model (p ∷ ps) = ground (arith, length-supporting model ps)

-- The providers that have the model, in the order that they are in.
pub Ascending-supporting :
    (model : String) (ps : List Provider)
    → Ascending ps
    → Ascending (supporting model ps)
      × ((P : Provider → Type 0)
          → All P ps
          → All (λ p. P p × (contains model p.models ≡ true)) (supporting model ps))
unfolding supporting Ascending
Ascending-supporting model [] a = (tt, λ P h. tt)
Ascending-supporting model (p ∷ ps) a =
    let (rest, keeps) = Ascending-supporting model ps a.1 in
    elim (Bool-cases (contains model p.models)) [
      | inl has_it ↦ rw has_it (
        (
          All-first (λ q. p.priority ≤ q.priority) (λ q. contains model q.models ≡ true)
              (supporting model ps) (keeps (λ q. p.priority ≤ q.priority) a.0),
          rest,
        ),
        λ P h. ((h.0, has_it), keeps P h.1),
      )
      | inr lacks ↦ rw lacks (rest, λ P h. keeps P h.1)
    ]
  where
    All-first : (P Q : Provider → Type 0) (ps : List Provider) → All (λ p. P p × Q p) ps → All P ps
    All-first P Q [] a = tt
    All-first P Q (p ∷ ps) a = (a.0.0, All-first P Q ps a.1)

pub mem-supporting :
    (model : String) (ps : List Provider) (q : Provider)
    → contains model q.models ≡ true
    → Memᴰ q ps
    → Memᴰ q (supporting model ps)
unfolding supporting
mem-supporting model (p ∷ ps) q h (Memᴰ.head e) =
    let has_it : contains model p.models ≡ true = rw (← e) h in rw has_it (Memᴰ.head e)
mem-supporting model (p ∷ ps) q h (Memᴰ.tail m) = elim (Bool-cases (contains model p.models)) [
  | inl has_it ↦ rw has_it (Memᴰ.tail (mem-supporting model ps q h m))
  | inr lacks ↦ rw lacks (mem-supporting model ps q h m)
]
mem-supporting model [] q h m = elim m [ ]
