-- ===== src/Llm/Gateway/Candidates/Chosen.antt =====
-- Which providers are asked, and in which order (agi_platform/llm/core.py).
use mathlib.Core.List.{Memᴰ}
use agi_platform.Prelude.{
  ◌≤◌, String, List, [], ◌∷◌, length, Bool, true, ◌||◌, Option, Option-cases, none, some, contains,
  Dict, get, values, All, Result-cases, ok, ◌≡◌, ◌↔◌, refl, inl, inr, arith, Bool-cases,
}
use agi_platform.Database.Select.{All-mem, All-of_mem}
use agi_platform.Llm.Providers.{Provider, configured, ProviderHealth, available, RoutingPolicy}
use agi_platform.Llm.Policies.{Floats}
use agi_platform.Llm.Gateway.{
  Network, LlmGateway, sort_providers, given, without_models, supporting, usable, for_model,
  non_empty, candidate_providers,
}
use agi_platform.Llm.Gateway.Candidates.{
  Ascending, All-sort, mem-sort, Ascending-sort, length-sort, length-supporting,
  Ascending-supporting, mem-supporting,
}

-- The provider has the model that is asked for, if any.
abbrev pub supports : Option String → Provider → Bool
supports none p = true
supports (some model) p = contains model p.models

-- The allowlist has the model that is asked for, or is empty.
abbrev pub permits : RoutingPolicy → Option String → Bool
permits policy none = true
permits policy (some model) =
    without_models policy.model_allowlist || contains model policy.model_allowlist

module _ (floats : Floats) (network : Network) (w : network.World) where
  -- The provider is configured, and its circuit is closed.
  pub record IsUsable (health : Dict ProviderHealth) (ps : List Provider) (p : Provider)
      : Type 0 where
    pub listed : Memᴰ p ps
    pub ready : configured network.getenv p ≡ true
    pub state : ProviderHealth
    pub known : get health p.name ≡ some state
    pub closed : available state (network.monotonic w) ≡ true

  still :
      (health : Dict ProviderHealth) (ps qs : List Provider) (p : Provider)
      → IsUsable health ps p
      → Memᴰ p qs
      → IsUsable health qs p
  still health ps qs p u m = record {
    listed = m;
    ready = u.ready;
    state = u.state;
    known = u.known;
    closed = u.closed;
  }

  -- A usable provider of a list that starts with one that is not stands further on.
  skip :
      (health : Dict ProviderHealth) (p : Provider) (ps found : List Provider)
      → ((q : Provider) → IsUsable health ps q → Memᴰ q found)
      → ((q : Provider) → q ≡ p → IsUsable health (p ∷ ps) q → ⊥)
      → (q : Provider) → IsUsable health (p ∷ ps) q
      → Memᴰ q found
  skip health p ps found full never q u = past (u.listed)
    where
      past : Memᴰ q (p ∷ ps) → Memᴰ q found
      past (Memᴰ.head e) = elim (never q e u) [ ]
      past (Memᴰ.tail m) = full q (still health (p ∷ ps) ps q u m)

  -- A provider that is usable is the head of the list, or stands further on.
  step :
      (health : Dict ProviderHealth) (p : Provider) (ps found : List Provider)
      → ((q : Provider) → IsUsable health ps q → Memᴰ q found)
      → (q : Provider) → IsUsable health (p ∷ ps) q
      → Memᴰ q (p ∷ found)
  step health p ps found full q u = past (u.listed)
    where
      past : Memᴰ q (p ∷ ps) → Memᴰ q (p ∷ found)
      past (Memᴰ.head e) = Memᴰ.head e
      past (Memᴰ.tail m) = Memᴰ.tail (full q (still health (p ∷ ps) ps q u m))

  All-usable :
      (health : Dict ProviderHealth) (ds : Dict Provider) (all ps : List Provider)
      → ((p : Provider) → Memᴰ p (values ds) → Memᴰ p all)
      → usable floats network w health ds ≡ ok ps
      → All (IsUsable health all) ps
        × (length ps ≤ length ds)
        × ((p : Provider) → IsUsable health (values ds) p → Memᴰ p ps)
  unfolding usable
  All-usable health [] all ps among h =
      let none_there : ps ≡ [] = ground (arith, h) in
      rw none_there (tt, omega arith, λ p u. elim u.listed [ ])
  All-usable health ((n, p) ∷ ds) all ps among h = elim (Bool-cases (configured network.getenv p)) [
    | inr not_ready ↦
        let (a, few, full) =
          All-usable health ds all ps (λ q m. among q (Memᴰ.tail m)) (rw not_ready at h) in
        (
          a,
          omega (arith, few),
          skip health p (values ds) ps full
              (λ q e u. let is_ready : configured network.getenv p ≡ true = rw (← e) u.ready in cc),
        )
    | inl ready ↦
        let h₁ = rw ready at h in
        elim (Option-cases (get health p.name)) [
          | inl unknown ↦ let h₂ = rw unknown at h₁ in cc
          | inr (state, known) ↦
              let h₂ = rw known at h₁ in
              elim (Result-cases (usable floats network w health ds)) [
                | inr (e, bad) ↦ let h₃ = rw bad at h₂ in cc
                | inl (rest, good) ↦
                    let h₃ = rw good at h₂ in
                    let (a, few, full) =
                      All-usable health ds all rest (λ q m. among q (Memᴰ.tail m)) good in
                    elim (Bool-cases (available state (network.monotonic w))) [
                      | inl closed ↦
                          let same : ps ≡ p ∷ rest = ground (arith, h₃, closed) in
                          rw same (
                            (
                              record {
                                listed = among p (Memᴰ.head refl);
                                ready = ready;
                                state = state;
                                known = known;
                                closed = closed;
                              },
                              a,
                            ),
                            omega (arith, few),
                            step health p (values ds) rest full,
                          )
                      | inr shut ↦
                          let same : ps ≡ rest = ground (arith, h₃, shut) in
                          rw same (
                            a,
                            omega (arith, few),
                            skip health p (values ds) rest full (λ q e u.
                                let found : get health p.name ≡ some u.state = rw (← e) u.known in
                                let is_closed = u.closed in
                                ground (arith, found, known, shut, is_closed)),
                          )
                    ]
              ]
        ]
  ]

  for_model_inv :
      (policy : RoutingPolicy) (model : Option String) (ps chosen : List Provider)
      → for_model floats network policy model ps ≡ ok chosen
      → Ascending ps
      → (permits policy model ≡ true)
        × Ascending chosen
        × (length chosen ≤ length ps)
        × ((p : Provider) → Memᴰ p chosen ↔ (Memᴰ p ps × (supports model p ≡ true)))
  unfolding for_model
  for_model_inv policy none ps chosen h a =
      let same : chosen ≡ ps = ground (arith, h) in
      rw same (refl, a, omega arith, λ p. (λ m. (m, refl), λ m. m.0))
  for_model_inv policy (some model) ps chosen h a =
      let allowed : permits policy (some model) ≡ true = ground (arith, h) in
      let same : chosen ≡ supporting model ps = ground (arith, h) in
      let (ascending, keeps) = Ascending-supporting model ps a in
      rw same (
        allowed,
        ascending,
        length-supporting model ps,
        λ p. (
          λ m.
              All-mem (λ q. Memᴰ q ps × (contains model q.models ≡ true)) (supporting model ps) p
                (keeps (λ q. Memᴰ q ps) (All-of_mem (λ q. Memᴰ q ps) ps (λ q m. m))) m,
          λ m. mem-supporting model ps p m.1 m.0,
        ),
      )

  non_empty_inv :
      (chosen ps : List Provider) → non_empty floats network chosen ≡ ok ps → chosen ≡ ps
  unfolding non_empty
  non_empty_inv [] ps h = ground (arith, h)
  non_empty_inv (p ∷ chosen) ps h = ground (arith, h)

  -- The candidates are exactly the usable providers that have the model that is asked for, which the
  -- allowlist permits, in ascending order of their numbers, and there are no more of them than providers.
  pub candidate_providers_lem :
      (g : LlmGateway floats network) (model : Option String) (ps : List Provider)
      → candidate_providers floats network w g model ≡ ok ps
      → (permits g.routing_policy (given model) ≡ true)
        × Ascending ps
        × (length ps ≤ length g.providers)
        × ((p : Provider)
            → Memᴰ p ps
              ↔ (IsUsable g.health (values g.providers) p × (supports (given model) p ≡ true)))
  unfolding candidate_providers
  candidate_providers_lem g model ps h =
      elim (Result-cases (usable floats network w g.health g.providers)) [
        | inr (e, bad) ↦ let h₁ = rw bad at h in cc
        | inl (found, good) ↦
            let h₁ = rw good at h in
            elim (Result-cases
              (for_model floats network g.routing_policy (given model) (sort_providers found))) [
                | inr (e, bad) ↦ let h₂ = rw bad at h₁ in cc
                | inl (chosen, picked) ↦
                    let h₂ = rw picked at h₁ in
                    let same = non_empty_inv chosen ps h₂ in
                    let (a, few, full) =
                      All-usable g.health g.providers (values g.providers) found (λ p m. m) good in
                    let (allowed, ascending, fewer, exact) =
                      for_model_inv g.routing_policy (given model) (sort_providers found) chosen
                        picked (Ascending-sort found) in
                    let usable_one = IsUsable g.health (values g.providers) in
                    rw (← same) (
                      allowed,
                      ascending,
                      omega (arith, few, fewer, length-sort found),
                      λ p. (
                        λ m.
                            let (listed, has_it) = (exact p).0 m in
                            (
                              All-mem usable_one (sort_providers found) p
                                  (All-sort usable_one found a) listed,
                              has_it,
                            ),
                        λ u. (exact p).1 (mem-sort p found (full p u.0), u.1),
                      ),
                    )
              ]
      ]
