-- ===== src/Security/Lock.antt =====
-- `RedisDistributedLock` (agi_platform/security.py).
pub mod Turns
pub mod Exclusive
pub mod Waiting
use agi_platform.Prelude.{
  ℕ, ◌+◌, ◌≤◌, String, ◌+++◌, ◌==◌, List, [], ◌∷◌, Bool, true, false, Option, none, some, leb, ltb,
  Result, ok, raise, if◌then◌else◌, ◌≡◌,
}
use agi_platform.Security.Errors.{PlatformError, dependency, conflict}

-- What the lock relies on of Redis. `value` is `get` at a time of the server, `set` is `SET NX PX`, which
-- says whether it has set, and `delete` is `del`.
pub record LockServer : Type 1 where
  pub Keys : Type 0
  pub value : Keys → ℕ → String → Option String
  pub set : Keys → ℕ → String → String → ℕ → Keys × Bool
  pub delete : Keys → ℕ → String → Keys
  pub set_taken :
      (s : Keys) (t : ℕ) (k o w : String) (ttl : ℕ)
      → value s t k ≡ some w
      → set s t k o ttl ≡ (s, false)
  pub set_free :
      (s : Keys) (t : ℕ) (k o : String) (ttl : ℕ) → value s t k ≡ none → (set s t k o ttl).1 ≡ true
  pub value-set :
      (s : Keys) (t : ℕ) (k o : String) (ttl t' : ℕ)
      → value s t k ≡ none
      → t ≤ t'
      → value (set s t k o ttl).0 t' k ≡ (if ltb t' (t + ttl) then some o else none)
  pub value-set_other :
      (s : Keys) (t : ℕ) (k o : String) (ttl t' : ℕ) (j : String)
      → (k == j) ≡ false
      → value (set s t k o ttl).0 t' j ≡ value s t' j
  pub value-delete :
      (s : Keys) (t : ℕ) (k : String) (t' : ℕ) (j : String)
      → value (delete s t k) t' j ≡ (if k == j then none else value s t' j)

-- How a command goes: it is answered; it does not reach the server; or its answer is lost, and the
-- client raises although the server has run it.
pub data Wire : Type 0 where
  answered unreached lost : Wire

pub record LockHandle : Type 0 where
  pub name : String
  pub owner : String
  pub ttl_ms : ℕ

-- One turn of the loop of `acquire`: the time of the server, the wire, and the clock after the command.
pub record Attempt : Type 0 where
  pub server_time : ℕ
  pub wire : Wire
  pub clock : ℕ

unfoldable pub lock_key : String → String
lock_key name = "lock:" +++ name

module _ (server : LockServer) where
  -- `RELEASE_SCRIPT`, which the server runs at once.
  unfoldable pub release_script : server.Keys → ℕ → String → String → server.Keys × Bool
  release_script s t key owner = elim (server.value s t key) [
    | none ↦ (s, false)
    | some o ↦ if o == owner then (server.delete s t key, true) else (s, false)
  ]

  -- What a command leaves on the server, and what the client has of it: `none` is a `RedisError`.
  unfoldable pub sent : Wire → server.Keys → server.Keys × Bool → server.Keys × Option Bool
  sent answered s (s', b) = (s', some b)
  sent unreached s (s', b) = (s, none)
  sent lost s (s', b) = (s', none)

  -- What `acquire` makes of an answer, with what the further turns give.
  unfoldable pub after_set :
      LockHandle
      → Bool
      → server.Keys × Option Bool
      → server.Keys × Option (Result PlatformError LockHandle)
      → server.Keys × Option (Result PlatformError LockHandle)
  after_set handle late (s, none) rest = (
    s,
    some (raise (record { class = dependency; safe_message = "Lock dependency unavailable." })),
  )
  after_set handle late (s, some true) rest = (s, some (ok handle))
  after_set handle late (s, some false) rest =
      if late
      then (
        s,
        some (
            raise
              (record { class = conflict; safe_message = "Operation is already in progress." })),
      )
      else rest

  -- The loop of `acquire`, for the turns that are given: `none` says that it goes on.
  unfoldable pub acquire :
      server.Keys
      → String
      → ℕ
      → ℕ
      → String
      → List Attempt
      → server.Keys × Option (Result PlatformError LockHandle)
  unfolding after_set sent lock_key
  acquire s name ttl_ms deadline owner [] = (s, none)
  acquire s name ttl_ms deadline owner (a ∷ attempts) =
      let turn = sent a.wire s (server.set s a.server_time (lock_key name) owner ttl_ms) in
      let rest = acquire turn.0 name ttl_ms deadline owner attempts in
      after_set (record { name = name; owner = owner; ttl_ms = ttl_ms }) (leb deadline a.clock) turn
        rest

  unfoldable pub released : server.Keys × Option Bool → server.Keys × Result PlatformError Bool
  released (s, some done) = (s, ok done)
  released (s, none) =
      (s, raise (record { class = dependency; safe_message = "Lock dependency unavailable." }))

  unfoldable pub release :
      server.Keys → LockHandle → ℕ → Wire → server.Keys × Result PlatformError Bool
  unfolding released sent release_script lock_key
  release s handle server_time wire =
      released (sent wire s (release_script s server_time (lock_key handle.name) handle.owner))

  -- `try: return fn() finally: release`, where an exception of `release` is the one that is raised
  unfoldable pub finally :
      {A : Type 0} → Result PlatformError A → Result PlatformError Bool → Result PlatformError A
  finally outcome (ok done) = outcome
  finally outcome (raise e) = raise e

  unfoldable pub run_locked :
      {A : Type 0}
      → (server.Keys → server.Keys × Result PlatformError A)
      → ℕ
      → Wire
      → server.Keys × Option (Result PlatformError LockHandle)
      → server.Keys × Option (Result PlatformError A)
  unfolding finally release
  run_locked fn release_time wire (s, none) = (s, none)
  run_locked fn release_time wire (s, some (raise e)) = (s, some (raise e))
  run_locked fn release_time wire (s, some (ok handle)) =
      let (s', outcome) = fn s in
      let (s'', done) = release s' handle release_time wire in (s'', some (finally outcome done))

  -- `run_once`; while `fn` runs, others may use the server, so `fn` says what it leaves there.
  unfoldable pub run_once :
      {A : Type 0}
      → (server.Keys → server.Keys × Result PlatformError A)
      → server.Keys
      → String
      → ℕ
      → ℕ
      → String
      → List Attempt
      → ℕ
      → Wire
      → server.Keys × Option (Result PlatformError A)
  unfolding run_locked acquire
  run_once fn s name ttl_ms deadline owner attempts release_time wire =
      run_locked fn release_time wire (acquire s name ttl_ms deadline owner attempts)
