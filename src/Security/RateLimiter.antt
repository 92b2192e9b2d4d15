-- ===== src/Security/RateLimiter.antt =====
-- `RateLimiter`, the sliding window kept in memory (agi_platform/security.py). A clock reading is a
-- number of microseconds.
pub mod Window
pub mod Exact
use agi_platform.Prelude.{
  ℕ, ◌+◌, ◌≤◌, String, ◌==◌, List, [], ◌∷◌, ◌++◌, Bool, true, false, ◌&&◌, Option, or_else, Dict,
  get, put, length, leb, ltb, if◌then◌else◌,
}

-- The 60 seconds of the source.
abbrev pub span : ℕ
span = 60000000

pub record RateLimiter : Type 0 where
  pub limit_per_minute : ℕ
  pub windows : Dict (List ℕ)

abbrev pub new : ℕ → RateLimiter
new limit = record { limit_per_minute = limit; windows = [] }

-- `while window and now - window[0] >= 60: window.popleft()`
unfoldable pub drop_old : ℕ → List ℕ → List ℕ
drop_old now [] = []
drop_old now (t ∷ ts) = let rest = drop_old now ts in if leb (t + span) now then rest else t ∷ ts

-- `self.windows[identity]`, where `windows` is a `defaultdict`
unfoldable pub window : RateLimiter → String → List ℕ
window l identity = or_else (get l.windows identity) []

abbrev with_window : RateLimiter → String → List ℕ → RateLimiter
with_window l identity w = record l { windows = put l.windows identity w }

unfoldable pub allow : RateLimiter → String → ℕ → RateLimiter × Bool
allow l identity now =
    let kept = drop_old now (window l identity) in
    if leb l.limit_per_minute (length kept)
    then (with_window l identity kept, false)
    else (with_window l identity (kept ++ now ∷ []), true)

-- A call of `allow`, with the reading of the clock that it makes.
pub record Call : Type 0 where
  pub identity : String
  pub now : ℕ

unfoldable pub after : RateLimiter → List Call → RateLimiter
after l [] = l
after l (c ∷ cs) = after (allow l c.identity c.now).0 cs

-- When calls of `k` were let through.
unfoldable pub admitted : RateLimiter → String → List Call → List ℕ
admitted l k [] = []
admitted l k (c ∷ cs) =
    let (l', passed) = allow l c.identity c.now in
    let rest = admitted l' k cs in if c.identity == k && passed then c.now ∷ rest else rest

-- How many of the times lie less than a minute before `now`, or after it.
unfoldable pub recent : ℕ → List ℕ → ℕ
recent now [] = 0
recent now (t ∷ ts) = let rest = recent now ts in if ltb now (t + span) then 1 + rest else rest
