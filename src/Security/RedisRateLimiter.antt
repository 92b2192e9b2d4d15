-- ===== src/Security/RedisRateLimiter.antt =====
-- `RedisRateLimiter.check` (agi_platform/security.py). The Redis client is a parameter: a pipeline of
-- INCR and EXPIRE commands, which counts or fails.
pub mod Limit
use agi_platform.Prelude.{
  ℕ, ◌+◌, ◌/◌, ◌≤◌, String, ◌+++◌, ◌==◌, ◌≡◌, List, [], ◌∷◌, Bool, true, false, Option, none, some,
  Result, ok, raise, any, map, ltb, if◌then◌else◌, decimal,
}
use agi_platform.Security.Errors.{PlatformError, dependency, rate_limit, default_message}

pub record RateLimitRule : Type 0 where
  pub scope : String
  pub limit : ℕ
  pub window_seconds : ℕ
  pub fail_closed : Bool

-- One INCR of the key, and EXPIRE of it after so many seconds.
pub record Command : Type 0 where
  pub key : String
  pub ttl : ℕ

-- What INCR answers for each command in turn, from the counts before it.
unfoldable pub replies : (String → ℕ) → List Command → List ℕ
replies count [] = []
replies count (c ∷ cs) =
    (count c.key + 1) ∷ replies (λ k. if c.key == k then count k + 1 else count k) cs

-- A key's count after the commands.
unfoldable pub counted : (String → ℕ) → List Command → String → ℕ
counted count [] k = count k
counted count (c ∷ cs) k = counted (λ j. if c.key == j then count j + 1 else count j) cs k

-- What the code relies on: a pipeline answers each INCR with the key's new count and counts from
-- there, or fails with `RedisError`, and then may have counted or not. A key that is not there counts 0.
pub record RedisClient : Type 1 where
  pub Store : Type 0
  pub count : Store → String → ℕ
  pub execute : Store → List Command → Store × Option (List ℕ)
  pub execute_replies :
      (s s' : Store) (cs : List Command) (answers : List ℕ)
      → execute s cs ≡ (s', some answers)
      → answers ≡ replies (count s) cs
  pub execute_counted :
      (s s' : Store) (cs : List Command) (answers : List ℕ) (k : String)
      → execute s cs ≡ (s', some answers)
      → count s' k ≡ counted (count s) cs k
  pub execute_failed :
      (s s' : Store) (cs : List Command) (k : String)
      → execute s cs ≡ (s', none)
      → count s k ≤ count s' k

-- `f"rl:{rule.scope}:{bucket}"`
unfoldable pub rule_key : ℕ → RateLimitRule → String
rule_key now rule = "rl:" +++ rule.scope +++ ":" +++ decimal (now / rule.window_seconds)

unfoldable pub rule_command : ℕ → RateLimitRule → Command
rule_command now rule = record { key = rule_key now rule; ttl = rule.window_seconds + 5 }

-- The loop over the counts: whether one of them passes the limit of its rule.
unfoldable pub over_limit : List ℕ → List RateLimitRule → Bool
over_limit [] rules = false
over_limit (n ∷ ns) [] = false
over_limit (n ∷ ns) (r ∷ rs) = let rest = over_limit ns rs in if ltb r.limit n then true else rest

unavailable : List RateLimitRule → Result PlatformError (Unit {0})
unavailable rules =
    if any (λ (r : RateLimitRule). r.fail_closed) rules
    then raise (record { class = dependency; safe_message = "Rate limit dependency unavailable." })
    else ok tt

limited : List ℕ → List RateLimitRule → Result PlatformError (Unit {0})
limited counts rules =
    if over_limit counts rules
    then raise (record { class = rate_limit; safe_message = default_message rate_limit })
    else ok tt

outcome : Option (List ℕ) → List RateLimitRule → Result PlatformError (Unit {0})
unfolding unavailable limited
outcome none rules = unavailable rules
outcome (some counts) rules = limited counts rules

module _ (redis : RedisClient) where
  unfoldable pub check :
      Bool → redis.Store → List RateLimitRule → ℕ → redis.Store × Result PlatformError (Unit {0})
  unfolding outcome
  check enabled s rules now =
      if enabled
      then (let (s', counts) = redis.execute s (map (rule_command now) rules) in
          (s', outcome counts rules))
      else (s, ok tt)
