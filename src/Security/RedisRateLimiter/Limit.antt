-- ===== src/Security/RedisRateLimiter/Limit.antt =====
-- How many requests a rule lets through in one of its windows (agi_platform/security.py).
use mathlib.Core.List.{Memᴰ}
use agi_platform.Prelude.{
  ℕ, ◌+◌, String, ◌==◌, List, [], ◌∷◌, map, true, Option, Result, ok, raise, any, if◌then◌else◌,
  ◌≡◌,
}
use agi_platform.Security.Errors.{PlatformError}
use agi_platform.Security.RedisRateLimiter.{
  RateLimitRule, RedisClient, rule_key, rule_command, check,
}

pub record Request : Type 0 where
  pub rules : List RateLimitRule
  pub now : ℕ

abbrev bumped : (String → ℕ) → String → String → ℕ
bumped count k j = if k == j then count j + 1 else count j

abbrev one_more : Result PlatformError (Unit {0}) → ℕ → ℕ
one_more (ok _) n = 1 + n
one_more (raise _) n = n

module _ (redis : RedisClient) where
  -- How many of the requests pass, in turn.
  unfoldable pub passed : redis.Store → List Request → ℕ
  passed s [] = 0
  passed s (q ∷ qs) =
      let (s', result) = check redis true s q.rules q.now in
      let rest = passed s' qs in one_more result rest

  -- The request carries a rule that counts under the key, has the limit, and fails closed.
  pub record Guarded (key : String) (limit : ℕ) (q : Request) : Type 0 where
    pub rule : RateLimitRule
    pub carried : Memᴰ rule q.rules
    pub under_key : rule_key q.now rule ≡ key
    pub limit_of : rule.limit ≡ limit
    pub closed : any (λ (r : RateLimitRule). r.fail_closed) q.rules ≡ true

  abbrev pub AllGuarded : String → ℕ → List Request → Type 0
  AllGuarded key limit [] = Unit
  AllGuarded key limit (q ∷ qs) = Guarded key limit q × AllGuarded key limit qs

  abbrev answers : redis.Store → Request → redis.Store × Option (List ℕ)
  answers s q = redis.execute s (map (rule_command q.now) q.rules)
