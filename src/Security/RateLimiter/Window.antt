-- ===== src/Security/RateLimiter/Window.antt =====
-- A minute holds no more admitted calls than the limit (agi_platform/security.py).
use agi_platform.Prelude.{
  ℕ, ◌+◌, ◌≤◌, String, ◌==◌, List, [], ◌∷◌, ◌++◌, false, get, get-put, length, length-append, leb,
  ltb, ◌≡◌, refl, inl, inr, All, arith, eq_iff, eq_refl, Bool-cases, if◌then◌else◌,
}
use agi_platform.Security.RateLimiter.{
  RateLimiter, new, with_window, drop_old, window, allow, Call, admitted, recent,
}

pub recent-le-length : (now : ℕ) (ts : List ℕ) → recent now ts ≤ length ts
unfolding recent
recent-le-length now [] = omega arith
recent-le-length now (t ∷ ts) = ground (arith, recent-le-length now ts)

pub recent-append :
    (now : ℕ) (ts us : List ℕ) → recent now (ts ++ us) ≡ recent now ts + recent now us
unfolding recent
recent-append now [] us = omega arith
recent-append now (t ∷ ts) us = ground (arith, recent-append now ts us)

pub recent_nil : (now : ℕ) → recent now [] ≡ 0
unfolding recent
recent_nil now = refl

-- What is dropped at some time is too old for any later one.
pub recent-drop_old :
    (at now : ℕ) (ts : List ℕ) → at ≤ now → recent now (drop_old at ts) ≡ recent now ts
unfolding recent drop_old
recent-drop_old at now [] h = refl
recent-drop_old at now (t ∷ ts) h = ground (arith, recent-drop_old at now ts h)

pub length-drop_old : (now : ℕ) (ts : List ℕ) → length (drop_old now ts) ≤ length ts
unfolding drop_old
length-drop_old now [] = omega arith
length-drop_old now (t ∷ ts) = ground (arith, length-drop_old now ts)

window-with_window :
    (l : RateLimiter) (j k : String) (w : List ℕ)
    → window (with_window l j w) k ≡ (if j == k then w else window l k)
unfolding window
window-with_window l j k w = ground (arith, get-put l.windows j k w)

-- The window of an identity after a call of its own.
pub window-allow_self :
    (l : RateLimiter) (k : String) (now : ℕ)
    → let kept = drop_old now (window l k) in
      window (allow l k now).0 k
      ≡ (if leb l.limit_per_minute (length kept) then kept else kept ++ now ∷ [])
unfolding allow
window-allow_self l k now =
    elim (Bool-cases (leb l.limit_per_minute (length (drop_old now (window l k))))) [
      | inl full ↦ rw (full, window-with_window, eq_refl)
      | inr free ↦ rw (free, window-with_window, eq_refl)
    ]

-- A call of another identity leaves the window alone.
pub window-allow_other :
    (l : RateLimiter) (j k : String) (now : ℕ)
    → (j == k) ≡ false
    → window (allow l j now).0 k ≡ window l k
unfolding allow
window-allow_other l j k now h =
    elim (Bool-cases (leb l.limit_per_minute (length (drop_old now (window l j))))) [
      | inl full ↦ rw (full, window-with_window l j k _, h)
      | inr free ↦ rw (free, window-with_window l j k _, h)
    ]

pub limit-allow :
    (l : RateLimiter) (k : String) (now : ℕ)
    → (allow l k now).0.limit_per_minute ≡ l.limit_per_minute
unfolding allow
limit-allow l k now = ground arith

pub allow_result :
    (l : RateLimiter) (k : String) (now : ℕ)
    → (allow l k now).1 ≡ ltb (length (drop_old now (window l k))) l.limit_per_minute
unfolding allow
allow_result l k now = ground arith

-- What a call of `k` itself does to its window: it stays within the limit, and seen from `now` it
-- grows by the call if that is let through.
pub own_call :
    (l : RateLimiter) (k : String) (t now : ℕ)
    → t ≤ now
    → length (window l k) ≤ l.limit_per_minute
    → (length (window (allow l k t).0 k) ≤ l.limit_per_minute)
      × (recent now (window (allow l k t).0 k)
          ≡ recent now (window l k) + (if (allow l k t).1 then recent now (t ∷ []) else 0))
own_call l k t now h fits =
    elim (Bool-cases (leb l.limit_per_minute (length (drop_old t (window l k))))) [
      | inl full ↦
          rw (window-allow_self l k t, allow_result l k t, full)
            (ground (arith, length-drop_old t (window l k), recent-drop_old t now (window l k) h))
      | inr free ↦
          rw (window-allow_self l k t, allow_result l k t, free)
            (ground (
              arith,
              length-append (drop_old t (window l k)) (t ∷ []),
              recent-append now (drop_old t (window l k)) (t ∷ []),
              recent-drop_old t now (window l k) h,
            ))
    ]

-- The window and the calls still to be admitted fit in the limit together.
recent-admitted :
    (l : RateLimiter) (k : String) (cs : List Call) (now : ℕ)
    → All (λ c. c.now ≤ now) cs
    → length (window l k) ≤ l.limit_per_minute
    → recent now (window l k) + recent now (admitted l k cs) ≤ l.limit_per_minute
unfolding admitted
recent-admitted l k [] now h fits = omega (arith, recent-le-length now (window l k), recent_nil now)
recent-admitted l k (c ∷ cs) now h fits = elim (Bool-cases (c.identity == k)) [
  | inl same ↦
      let here : c.identity ≡ k = (eq_iff c.identity k).0 same in
      let (l', passed) = allow l k c.now in
      rw (here, eq_refl)
        (ground (
          arith,
          own_call l k c.now now h.0 fits,
          limit-allow l k c.now,
          recent-append now (c.now ∷ []) (admitted (allow l k c.now).0 k cs),
          recent-admitted (allow l k c.now).0 k cs now h.1,
        ))
  | inr other ↦
      let kept = window-allow_other l c.identity k c.now other in
      let ih = recent-admitted (allow l c.identity c.now).0 k cs now h.1 in
      rw other (ground (arith, kept, limit-allow l c.identity c.now, ih))
]

-- Of the calls of one identity, whatever others do between them, at most `limit` are let through in
-- the minute before any moment `now` that no call comes after; with no bound on the calls, and also
-- if the clock was set back between them.
pub recent-admitted-le-limit :
    (limit : ℕ) (k : String) (cs : List Call) (now : ℕ)
    → All (λ c. c.now ≤ now) cs
    → recent now (admitted (new limit) k cs) ≤ limit
recent-admitted-le-limit limit k cs now h =
    omega (arith, recent-admitted (new limit) k cs now h (unfold window get in omega arith))
