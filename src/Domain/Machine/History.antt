-- ===== src/Domain/Machine/History.antt =====
-- What the events of a run say: they replay to the last state and version, and a version that
-- several callers expect serves one of them.
use agi_platform.Prelude.{
  ℕ, ◌+◌, ◌≤◌, String, Option, none, some, List, [], ◌∷◌, Bool, true, false, ◌&&◌, ◌==◌, eqb,
  if◌then◌else◌, ok, raise, ◌<◌, ◌≡◌, refl, ◌⊎◌, inl, inr, Bool-cases, length, any, All, arith,
  eq_refl,
}
use agi_platform.Domain.Entity.{DomainError, state_error, concurrency_error, Event, is_stale}
use agi_platform.Domain.Machine.{Machine, Request, run}

-- A reader's view of an object: the text of its state, and its version.
abbrev pub View : Type 0
View = String × ℕ

-- An event fits a view that has its `from_state` and the version before its `entity_version`.
unfoldable pub apply_event : View → Event → Option View
apply_event (state, version) e =
    if e.payload.from_state == state && eqb e.payload.entity_version (version + 1)
    then some (e.payload.to_state, e.payload.entity_version)
    else none

unfoldable pub replay : View → List Event → Option View
replay v [] = some v
replay v (e ∷ es) = elim (apply_event v e) [ none ↦ none | some v' ↦ replay v' es ]

-- What the event of a call that did not raise says of the object before it and after it.
pub record Moved {S : Type 0} (m : Machine S) (o : m.Obj) (r : Request S) (o' : m.Obj) (e : Event)
    : Type 0 where
  pub fresh : is_stale r.caller.expected_version (m.version o) ≡ false
  pub allowed : m.allows (m.state o) r.target ≡ true
  pub state_after : m.state o' ≡ r.target
  pub version_after : m.version o' ≡ m.version o + 1
  pub from_state : e.payload.from_state ≡ m.value (m.state o)
  pub to_state : e.payload.to_state ≡ m.value r.target
  pub entity_version : e.payload.entity_version ≡ m.version o + 1

module _ {S : Type 0} (m : Machine S) where
  -- A call raises and leaves the object alone, or moves it.
  pub call-cases :
      (o : m.Obj) (r : Request S)
      → ((x : DomainError) × (m.call o r.target r.caller r.stamp ≡ (o, raise x)))
        ⊎ ((o' : m.Obj) × (e : Event) × (m.call o r.target r.caller r.stamp ≡ (o', ok e))
            × Moved m o r o' e)
  call-cases o r = elim (Bool-cases (is_stale r.caller.expected_version (m.version o))) [
    | inl stale ↦ inl (concurrency_error, m.call_stale o r.target r.caller r.stamp stale)
    | inr fresh ↦ elim (Bool-cases (m.allows (m.state o) r.target)) [
      | inl allowed ↦
          let (o', e, call, s, v, from, to, n) =
            m.call_moved o r.target r.caller r.stamp fresh allowed in
          inr (
            o',
            e,
            call,
            record {
              fresh = fresh;
              allowed = allowed;
              state_after = s;
              version_after = v;
              from_state = from;
              to_state = to;
              entity_version = n;
            },
          )
      | inr refused ↦ inl (state_error, m.call_refused o r.target r.caller r.stamp fresh refused)
    ]
  ]

  abbrev view : m.Obj → View
  view o = (m.value (m.state o), m.version o)

  apply_event-Moved :
      (o : m.Obj) (r : Request S) (o' : m.Obj) (e : Event)
      → Moved m o r o' e
      → apply_event (view o) e ≡ some (view o')
  unfolding apply_event
  apply_event-Moved o r o' e h =
      rw (h.from_state, h.to_state, h.entity_version, h.version_after, h.state_after, eq_refl)
        (ground arith)

  pub replay-run :
      (o : m.Obj) (rs : List (Request S))
      → replay (view o) (run m o rs).1 ≡ some (view (run m o rs).0)
  unfolding run replay
  replay-run o [] = refl
  replay-run o (r ∷ rs) = elim (call-cases o r) [
    | inl (x, call) ↦ rw call (replay-run o rs)
    | inr (o', e, call, h) ↦ rw call (rw (apply_event-Moved o r o' e h, replay) (replay-run o' rs))
  ]

  pub version-run :
      (o : m.Obj) (rs : List (Request S))
      → m.version (run m o rs).0 ≡ m.version o + length (run m o rs).1
  unfolding run
  version-run o [] = omega arith
  version-run o (r ∷ rs) = elim (call-cases o r) [
    | inl (x, call) ↦ rw call (version-run o rs)
    | inr (o', e, call, h) ↦ rw call (omega (arith, version-run o' rs, h.version_after))
  ]

  -- Every caller expects the version `v`.
  abbrev pub Expect : ℕ → List (Request S) → Type 0
  Expect v = All (λ r. r.caller.expected_version ≡ some v)

  no_event_after :
      (o : m.Obj) (v : ℕ) (rs : List (Request S))
      → Expect v rs
      → v < m.version o
      → (run m o rs).1 ≡ []
  unfolding run
  no_event_after o v [] h late = refl
  no_event_after o v (r ∷ rs) h late = elim (call-cases o r) [
    | inl (x, call) ↦ rw call (no_event_after o v rs h.1 late)
    | inr (o', e, call, moved) ↦ unfold is_stale in ground (arith, moved.fresh, h.0)
  ]

  pub one_event :
      (o : m.Obj) (v : ℕ) (rs : List (Request S)) → Expect v rs → length (run m o rs).1 ≤ 1
  unfolding run
  one_event o v [] h = omega arith
  one_event o v (r ∷ rs) h = elim (call-cases o r) [
    | inl (x, call) ↦ rw call (one_event o v rs h.1)
    | inr (o', e, call, moved) ↦
        rw
          (
            call,
            no_event_after o' v rs h.1
                (unfold is_stale in ground (arith, moved.fresh, moved.version_after, h.0)),
          )
          (omega arith)
  ]

  -- An object in a state with no way out stays as it is.
  pub closed_run :
      (o : m.Obj) (rs : List (Request S))
      → ((t : S) → m.allows (m.state o) t ≡ false)
      → run m o rs ≡ (o, [])
  unfolding run
  closed_run o [] h = refl
  closed_run o (r ∷ rs) h = elim (call-cases o r) [
    | inl (x, call) ↦ rw (call, closed_run o rs h)
    | inr (o', e, call, moved) ↦ cc (h r.target, moved.allowed)
  ]

  -- `inside` is left by moves to `target` alone.
  abbrev pub Gate : (S → Bool) → S → Type 0
  Gate inside target =
      (s t : S) → inside s ≡ true → m.allows s t ≡ true → (inside t ≡ true) ⊎ (t ≡ target)

  -- An event of the list moved the object to the state `s`.
  abbrev pub visited : S → List Event → Bool
  visited s = any (λ e. e.payload.to_state == m.value s)

  pub visited-run :
      (inside : S → Bool) (target : S) (gate : Gate inside target) (o : m.Obj)
      (rs : List (Request S))
      → inside (m.state o) ≡ true
      → inside (m.state (run m o rs).0) ≡ false
      → visited target (run m o rs).1 ≡ true
  unfolding run
  visited-run inside target gate o [] h out = cc
  visited-run inside target gate o (r ∷ rs) h out = elim (call-cases o r) [
    | inl (x, call) ↦ rw call (visited-run inside target gate o rs h (rw call at out))
    | inr (o', e, call, moved) ↦ rw call (elim (gate (m.state o) r.target h moved.allowed) [
      | inl stays ↦ ground (
        arith,
        visited-run inside target gate o' rs (rw moved.state_after stays) (rw call at out),
      )
      | inr leaves ↦ rw (moved.to_state, leaves, eq_refl) refl
    ])
  ]
