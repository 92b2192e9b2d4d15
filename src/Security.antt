-- ===== src/Security.antt =====
-- agi_platform/security.py: permissions and policy, API keys, rate limits.
pub mod Permissions
pub mod Policy
pub mod Keys
pub mod Errors
pub mod RedisRateLimiter
pub mod RateLimiter
pub mod Routes
pub mod Lock
