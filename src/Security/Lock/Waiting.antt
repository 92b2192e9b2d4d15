-- ===== src/Security/Lock/Waiting.antt =====
-- `acquire` ends, and `run_once` gives the lock back (agi_platform/security.py).
use agi_platform.Prelude.{
  ℕ, suc, ◌+◌, ◌*◌, ◌≤◌, String, ◌==◌, List, [], ◌∷◌, length, Bool, true, false, Option, none, some,
  leb, Result, ok, ◌≡◌, ◌≢◌, refl, sym, ap, ◌∙◌, inl, inr, arith, eq_iff, eq_refl, Bool-cases,
  Option-cases,
}
use agi_platform.Security.Errors.{PlatformError}
use agi_platform.Security.Lock.{
  LockServer, answered, LockHandle, Attempt, lock_key, release_script, sent, after_set, acquire,
  released, release, finally, run_locked, run_once,
}

-- The clock is read at `start` or later, and after each sleep again.
unfoldable pub Paced : ℕ → ℕ → List Attempt → Type 0
Paced start retry_ms [] = Unit
Paced start retry_ms (a ∷ attempts) =
    (start ≤ a.clock) × Paced (a.clock + retry_ms) retry_ms attempts

module _ (server : LockServer) where
  after_set-ends :
      (handle : LockHandle) (late : Bool) (turn : server.Keys × Option Bool)
      (rest : server.Keys × Option (Result PlatformError LockHandle))
      → (late ≡ false → (r : Result PlatformError LockHandle) × (rest.1 ≡ some r))
      → (r : Result PlatformError LockHandle) × ((after_set server handle late turn rest).1
          ≡ some r)
  unfolding after_set
  after_set-ends handle late (s, none) rest f = (_, refl)
  after_set-ends handle late (s, some true) rest f = (_, refl)
  after_set-ends handle true (s, some false) rest f = (_, refl)
  after_set-ends handle false (s, some false) rest f = f refl

  later :
      (deadline start clock retry_ms n : ℕ)
      → deadline ≤ start + suc n * retry_ms
      → start ≤ clock
      → deadline ≤ (clock + retry_ms) + n * retry_ms
  later deadline start clock retry_ms n h from = grind arith

  -- `acquire` gives a handle or raises, whatever the server answers, after at most one turn more than
  -- its timeout has sleeps: the loop does not go on past its deadline.
  pub acquire_ends :
      (s : server.Keys) (name : String) (ttl_ms deadline start retry_ms : ℕ) (owner : String)
      (a : Attempt) (attempts : List Attempt)
      → Paced start retry_ms (a ∷ attempts)
      → deadline ≤ start + length attempts * retry_ms
      → (r : Result PlatformError LockHandle) × ((acquire server s name ttl_ms deadline owner
            (a ∷ attempts)).1
          ≡ some r)
  unfolding acquire Paced
  acquire_ends s name ttl_ms deadline start retry_ms owner a [] paced enough =
      after_set-ends _ (leb deadline a.clock) _ _ (λ early.
        let late : leb deadline a.clock ≡ true = ground (arith, enough, paced.0) in
        let bad : true ≡ false = sym late ∙ early in cc)
  acquire_ends s name ttl_ms deadline start retry_ms owner a (b ∷ attempts) paced enough =
      after_set-ends _ (leb deadline a.clock) _ _ (λ early.
        acquire_ends
          (sent server a.wire s (server.set s a.server_time (lock_key name) owner ttl_ms)).0 name
          ttl_ms deadline (a.clock + retry_ms) retry_ms owner b attempts paced.1
          (later deadline start a.clock retry_ms (length attempts) enough paced.0))

  after_set-handle :
      (handle h : LockHandle) (late : Bool) (turn : server.Keys × Option Bool)
      (rest : server.Keys × Option (Result PlatformError LockHandle))
      → (rest.1 ≡ some (ok h) → h ≡ handle)
      → (after_set server handle late turn rest).1 ≡ some (ok h)
      → h ≡ handle
  unfolding after_set
  after_set-handle handle h late (s, none) rest f got = cc
  after_set-handle handle h late (s, some true) rest f got = ground (arith, got)
  after_set-handle handle h true (s, some false) rest f got = cc
  after_set-handle handle h false (s, some false) rest f got = f got

  -- A handle is for the name and the owner of the call.
  handle-acquire :
      (s : server.Keys) (name : String) (ttl_ms deadline : ℕ) (owner : String)
      (attempts : List Attempt) (handle : LockHandle)
      → (acquire server s name ttl_ms deadline owner attempts).1 ≡ some (ok handle)
      → handle ≡ record { name = name; owner = owner; ttl_ms = ttl_ms }
  unfolding acquire
  handle-acquire s name ttl_ms deadline owner [] handle got = cc
  handle-acquire s name ttl_ms deadline owner (a ∷ attempts) handle got =
      let turn = sent server a.wire s (server.set s a.server_time (lock_key name) owner ttl_ms) in
      after_set-handle (record { name = name; owner = owner; ttl_ms = ttl_ms }) handle
        (leb deadline a.clock) turn (acquire server turn.0 name ttl_ms deadline owner attempts)
        (handle-acquire
          (sent server a.wire s (server.set s a.server_time (lock_key name) owner ttl_ms)).0 name
          ttl_ms deadline owner attempts handle)
        got

  value-script :
      (s : server.Keys) (t : ℕ) (key owner : String)
      → server.value (release_script server s t key owner).0 t key ≢ some owner
  unfolding release_script
  value-script s t key owner held = elim (Option-cases (server.value s t key)) [
    | inl free ↦ let e = rw (free, release_script) at held in ground (arith, e, free)
    | inr (w, there) ↦ elim (Bool-cases (w == owner)) [
      | inl own ↦
          let e : server.value (server.delete s t key) t key ≡ some owner =
            rw (there, own, release_script) at held in
          let gone : server.value (server.delete s t key) t key ≡ none =
            server.value-delete s t key t key ∙ rw (eq_refl key) refl in
          let bad : none ≡ some owner = sym gone ∙ e in cc
      | inr foreign ↦
          let e : server.value s t key ≡ some owner = rw (there, foreign, release_script) at held in
          ground (arith, e, there, foreign, eq_iff w owner)
    ]
  ]

  -- `run_once` runs its function once it has the lock, gives what the function returns or raises, and
  -- has given the lock back, whatever the function did to the server, if the release is answered.
  pub run_once-frees :
      {A : Type 0} (fn : server.Keys → server.Keys × Result PlatformError A) (s s' : server.Keys)
      (name : String) (ttl_ms deadline : ℕ) (owner : String) (attempts : List Attempt)
      (handle : LockHandle) (release_time : ℕ)
      → acquire server s name ttl_ms deadline owner attempts ≡ (s', some (ok handle))
      → let (s'', outcome) =
          run_once server fn s name ttl_ms deadline owner attempts release_time answered in
        (outcome ≡ some (fn s').1) × (server.value s'' release_time (lock_key name) ≢ some owner)
  unfolding run_once run_locked release released sent finally
  run_once-frees fn s s' name ttl_ms deadline owner attempts handle release_time got =
      let same = handle-acquire s name ttl_ms deadline owner attempts handle (ap (λ p. p.1) got) in
      rw (got, same) (refl, value-script (fn s').0 release_time (lock_key name) owner)
