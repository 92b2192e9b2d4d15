-- ===== src/Security/RateLimiter/Exact.antt =====
-- The limiter refuses only what the limit forbids, as long as the clock does not go back
-- (agi_platform/security.py).
use agi_platform.Prelude.{
  ℕ, ◌+◌, ◌≤◌, ◌<◌, String, ◌==◌, List, [], ◌∷◌, ◌++◌, get, length, leb, ltb, ◌≡◌, refl, inl, inr,
  All, arith, eq_iff, eq_refl, Bool-cases,
}
use agi_platform.Security.RateLimiter.{
  span, RateLimiter, new, drop_old, window, allow, Call, after, admitted, recent,
}
use agi_platform.Security.RateLimiter.Window.{
  recent-append, recent-drop_old, recent_nil, window-allow_self, window-allow_other, limit-allow,
  allow_result, own_call,
}

abbrev IsAscending : List ℕ → Type 0
IsAscending [] = Unit
IsAscending (t ∷ ts) = All (λ u. t ≤ u) ts × IsAscending ts

recent_after :
    (now t : ℕ) (ts : List ℕ) → now < t + span → All (λ u. t ≤ u) ts → recent now ts ≡ length ts
unfolding recent
recent_after now t [] h a = refl
recent_after now t (u ∷ ts) h a = ground (arith, recent_after now t ts h a.1)

-- What is kept of a window in order is recent.
recent-drop_old_self :
    (now : ℕ) (ts : List ℕ)
    → IsAscending ts
    → recent now (drop_old now ts) ≡ length (drop_old now ts)
unfolding recent drop_old
recent-drop_old_self now [] a = refl
recent-drop_old_self now (t ∷ ts) a =
    ground (arith, recent-drop_old_self now ts a.1, recent_after now t ts)

All-drop_old : (P : ℕ → Type 0) (now : ℕ) (ts : List ℕ) → All P ts → All P (drop_old now ts)
unfolding drop_old
All-drop_old P now [] a = tt
All-drop_old P now (t ∷ ts) a = elim (Bool-cases (leb (t + span) now)) [
  | inl old ↦ rw old (All-drop_old P now ts a.1)
  | inr young ↦ rw young a
]

IsAscending-drop_old : (now : ℕ) (ts : List ℕ) → IsAscending ts → IsAscending (drop_old now ts)
unfolding drop_old
IsAscending-drop_old now [] a = tt
IsAscending-drop_old now (t ∷ ts) a = elim (Bool-cases (leb (t + span) now)) [
  | inl old ↦ rw old (IsAscending-drop_old now ts a.1)
  | inr young ↦ rw young a
]

All-snoc : (P : ℕ → Type 0) (ts : List ℕ) (t : ℕ) → All P ts → P t → All P (ts ++ t ∷ [])
All-snoc P [] t a h = (h, tt)
All-snoc P (u ∷ ts) t a h = (a.0, All-snoc P ts t a.1 h)

IsAscending-snoc :
    (ts : List ℕ) (t : ℕ) → IsAscending ts → All (λ u. u ≤ t) ts → IsAscending (ts ++ t ∷ [])
IsAscending-snoc [] t a h = (tt, tt)
IsAscending-snoc (u ∷ ts) t a h =
    (All-snoc (λ v. u ≤ v) ts t a.0 h.0, IsAscending-snoc ts t a.1 h.1)

All-le : (s t : ℕ) (ts : List ℕ) → s ≤ t → All (λ u. u ≤ s) ts → All (λ u. u ≤ t) ts
All-le s t [] h a = tt
All-le s t (u ∷ ts) h a = (omega arith, All-le s t ts h a.1)

-- A window in order, with no time past `t`, within the limit.
record Tidy (limit t : ℕ) (w : List ℕ) : Type 0 where
  ascending : IsAscending w
  past : All (λ u. u ≤ t) w
  fits : length w ≤ limit

Tidy-later : (limit s t : ℕ) (w : List ℕ) → s ≤ t → Tidy limit s w → Tidy limit t w
Tidy-later limit s t w h a = record {
  ascending = a.ascending;
  past = All-le s t w h a.past;
  fits = a.fits;
}

Tidy-allow :
    (l : RateLimiter) (k : String) (s t : ℕ)
    → s ≤ t
    → Tidy l.limit_per_minute s (window l k)
    → Tidy l.limit_per_minute t (window (allow l k t).0 k)
Tidy-allow l k s t h a = record {
  ascending =
      rw (window-allow_self l k t) (elim (Bool-cases (leb l.limit_per_minute (length kept))) [
        | inl full ↦ rw full (IsAscending-drop_old t (window l k) a.ascending)
        | inr free ↦
            rw free
              (IsAscending-snoc kept t (IsAscending-drop_old t (window l k) a.ascending) kept_past)
      ]);
  past = rw (window-allow_self l k t) (elim (Bool-cases (leb l.limit_per_minute (length kept))) [
    | inl full ↦ rw full kept_past
    | inr free ↦ rw free (All-snoc (λ u. u ≤ t) kept t kept_past (omega arith))
  ]);
  fits = (own_call l k t t (omega arith) a.fits).0;
}
  where
    kept : List ℕ
    kept = drop_old t (window l k)

    kept_past : All (λ u. u ≤ t) kept
    kept_past = All-drop_old (λ u. u ≤ t) t (window l k) (All-le s t (window l k) h a.past)

-- The clock readings of the calls do not fall, from `t` on and up to `now`.
abbrev pub Timely : ℕ → List Call → ℕ → Type 0
Timely t [] now = t ≤ now
Timely t (c ∷ cs) now = (t ≤ c.now) × Timely c.now cs now

Timely-le : (t : ℕ) (cs : List Call) (now : ℕ) → Timely t cs now → t ≤ now
Timely-le t [] now h = h
Timely-le t (c ∷ cs) now h = omega (arith, Timely-le c.now cs now h.1)

allow_by_recent :
    (l : RateLimiter) (k : String) (cs : List Call) (t now : ℕ)
    → Timely t cs now
    → Tidy l.limit_per_minute t (window l k)
    → (allow (after l cs) k now).1
      ≡ ltb (recent now (window l k) + recent now (admitted l k cs)) l.limit_per_minute
unfolding after admitted
allow_by_recent l k [] t now h a =
    rw (allow_result l k now, recent_nil now)
      (ground (
        arith,
        recent-drop_old_self now (window l k) a.ascending,
        recent-drop_old now now (window l k),
      ))
allow_by_recent l k (c ∷ cs) t now h a = elim (Bool-cases (c.identity == k)) [
  | inl same ↦
      let here : c.identity ≡ k = (eq_iff c.identity k).0 same in
      let l' = (allow l k c.now).0 in
      let ih =
        allow_by_recent l' k cs c.now now h.1
          (rw (limit-allow l k c.now) (Tidy-allow l k t c.now h.0 a)) in
      rw (here, eq_refl, ih, limit-allow)
        (ground (
          arith,
          own_call l k c.now now (Timely-le c.now cs now h.1) a.fits,
          recent-append now (c.now ∷ []) (admitted l' k cs),
        ))
  | inr other ↦
      let l' = (allow l c.identity c.now).0 in
      let kept = window-allow_other l c.identity k c.now other in
      let ih =
        allow_by_recent l' k cs c.now now h.1
          (rw (limit-allow l c.identity c.now, kept) (Tidy-later _ t c.now (window l k) h.0 a)) in
      rw (other, ih, limit-allow, kept) refl
]

-- After calls whose clock readings do not fall, a call at `now` is let through exactly when fewer
-- than `limit` calls of its identity were let through in the minute before it.
allow-eq-recent :
    (limit : ℕ) (k : String) (cs : List Call) (now : ℕ)
    → Timely 0 cs now
    → (allow (after (new limit) cs) k now).1 ≡ ltb (recent now (admitted (new limit) k cs)) limit
allow-eq-recent limit k cs now h =
    rw
      (allow_by_recent (new limit) k cs 0 now h
        (unfold window get in record { ascending = tt; past = tt; fits = omega arith }))
      (unfold window get recent in ground arith)
