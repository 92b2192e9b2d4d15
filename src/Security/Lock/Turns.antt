-- ===== src/Security/Lock/Turns.antt =====
-- What one turn of `acquire` and one `release` do (agi_platform/security.py).
use agi_platform.Prelude.{
  ℕ, String, ◌==◌, [], ◌∷◌, false, some, ok, ◌≡◌, ◌≢◌, refl, ap, ◌∙◌, ◌⊎◌, inl, inr, arith, eq_iff,
  Bool-cases, Option-cases,
}
use agi_platform.Security.Lock.{
  LockServer, Wire, answered, unreached, lost, LockHandle, Attempt, lock_key, release_script, sent,
  acquire, release, released, after_set,
}

module _ (server : LockServer) where
  -- One turn of `acquire`.
  module _ (s : server.Keys) (name : String) (ttl_ms deadline : ℕ) (owner : String)
      (a : Attempt) where
    pub turn_kept :
        server.set s a.server_time (lock_key name) owner ttl_ms ≡ (s, false)
        → (acquire server s name ttl_ms deadline owner (a ∷ [])).0 ≡ s
    unfolding acquire after_set sent
    turn_kept taken = ground (arith, taken)

    pub turn_refused :
        (handle : LockHandle)
        → server.set s a.server_time (lock_key name) owner ttl_ms ≡ (s, false)
        → (acquire server s name ttl_ms deadline owner (a ∷ [])).1 ≢ some (ok handle)
    unfolding acquire after_set sent
    turn_refused handle taken got = ground (arith, taken, got)

    pub turn_granted :
        (handle : LockHandle)
        → (acquire server s name ttl_ms deadline owner (a ∷ [])).1 ≡ some (ok handle)
        → (acquire server s name ttl_ms deadline owner (a ∷ [])).0
          ≡ (server.set s a.server_time (lock_key name) owner ttl_ms).0
    unfolding acquire after_set sent
    turn_granted handle got = ground (arith, got)

    pub turn_name :
        (handle : LockHandle)
        → (acquire server s name ttl_ms deadline owner (a ∷ [])).1 ≡ some (ok handle)
        → handle.name ≡ name
    unfolding acquire after_set sent
    turn_name handle got = ground (arith, got)

    pub turn-state :
        ((acquire server s name ttl_ms deadline owner (a ∷ [])).0 ≡ s)
        ⊎ ((acquire server s name ttl_ms deadline owner (a ∷ [])).0
            ≡ (server.set s a.server_time (lock_key name) owner ttl_ms).0)
    unfolding acquire after_set sent
    turn-state = ground arith

  pub release-state :
      (s : server.Keys) (handle : LockHandle) (t : ℕ) (wire : Wire)
      → ((release server s handle t wire).0 ≡ s)
        ⊎ ((release server s handle t wire).0
            ≡ (release_script server s t (lock_key handle.name) handle.owner).0)
  unfolding release released sent
  release-state s handle t answered = inr refl
  release-state s handle t unreached = inl refl
  release-state s handle t lost = inr refl

  pub script-state :
      (s : server.Keys) (t : ℕ) (key o : String)
      → ((release_script server s t key o).0 ≡ s)
        ⊎ ((server.value s t key ≡ some o)
            × ((release_script server s t key o).0 ≡ server.delete s t key))
  unfolding release_script
  script-state s t key o = elim (Option-cases (server.value s t key)) [
    | inl free ↦ inl (rw (free, release_script) refl)
    | inr (w, there) ↦ elim (Bool-cases (w == o)) [
      | inl own ↦ inr (there ∙ ap some ((eq_iff w o).0 own), rw (there, own, release_script) refl)
      | inr foreign ↦ inl (rw (there, foreign, release_script) refl)
    ]
  ]
