-- ===== src/Security/Lock/Exclusive.antt =====
-- One owner at a time has the lock (agi_platform/security.py).
use agi_platform.Prelude.{
  ℕ, ◌+◌, ◌≤◌, ◌<◌, String, ◌==◌, List, [], ◌∷◌, true, false, Option, none, some, ltb, All, Result,
  ok, raise, ◌≡◌, ◌≢◌, refl, sym, ap, subst, ◌∙◌, inl, inr, arith, eq_iff, Bool-cases, Option-cases,
}
use agi_platform.Security.Errors.{PlatformError}
use agi_platform.Security.Lock.Turns.{
  turn_kept, turn_refused, turn_granted, turn_name, turn-state, release-state, script-state,
}
use agi_platform.Security.Lock.{
  LockServer, Wire, LockHandle, Attempt, lock_key, release_script, acquire, release,
}

-- One turn of an `acquire`, under a name, an owner and a time to live, or a `release`.
pub data Op : Type 0 where
  tries : String → String → ℕ → ℕ → Attempt → Op
  releases : LockHandle → ℕ → Wire → Op

abbrev time_of : Op → ℕ
time_of (tries name owner ttl_ms deadline a) = a.server_time
time_of (releases handle t wire) = t

-- The call is no release by the owner.
abbrev IsForeign : String → Op → Type 0
IsForeign owner (tries name o ttl_ms deadline a) = Unit
IsForeign owner (releases handle t wire) = (handle.owner == owner) ≡ false

-- The call is made while the lock lasts, and it is no release by the owner.
pub record Elsewhere (owner : String) (start end : ℕ) (op : Op) : Type 0 where
  pub from : start ≤ time_of op
  pub before : time_of op < end
  pub foreign : IsForeign owner op

module _ (server : LockServer) where
  -- What the call leaves, and the handle that it gives, if any.
  unfoldable pub step : server.Keys → Op → server.Keys × Option (Result PlatformError LockHandle)
  step s (tries name owner ttl_ms deadline a) = acquire server s name ttl_ms deadline owner (a ∷ [])
  step s (releases handle t wire) = ((release server s handle t wire).0, none)

  -- The results of the calls.
  unfoldable pub results : server.Keys → List Op → List (Option (Result PlatformError LockHandle))
  results s [] = []
  results s (op ∷ ops) = let (s', r) = step s op in r ∷ results s' ops

  unfoldable pub after : server.Keys → List Op → server.Keys
  after s [] = s
  after s (op ∷ ops) = after (step s op).0 ops

  -- The call does not give out the lock of that name.
  pub Refused : String → Option (Result PlatformError LockHandle) → Type 0
  Refused name none = Unit
  Refused name (some (raise e)) = Unit
  Refused name (some (ok handle)) = handle.name ≢ name

  record Held (s : server.Keys) (name owner : String) (start end : ℕ) : Type 0 where
    at : (t : ℕ) → start ≤ t → t < end → server.value s t (lock_key name) ≡ some owner

  Refused-ok :
      (name : String) (r : Option (Result PlatformError LockHandle))
      → ((handle : LockHandle) → r ≡ some (ok handle) → handle.name ≢ name)
      → Refused name r
  unfolding Refused
  Refused-ok name none f = tt
  Refused-ok name (some (raise e)) f = tt
  Refused-ok name (some (ok handle)) f = f handle refl

  Held-tries :
      (s : server.Keys) (name owner : String) (start end : ℕ) (n o : String) (ttl_ms deadline : ℕ)
      (a : Attempt)
      → Held s name owner start end
      → start ≤ a.server_time
      → a.server_time < end
      → Held (acquire server s n ttl_ms deadline o (a ∷ [])).0 name owner start end
        × Refused name (acquire server s n ttl_ms deadline o (a ∷ [])).1
  Held-tries s name owner start end n o ttl_ms deadline a h from before =
      elim (Bool-cases (lock_key n == lock_key name)) [
        | inl same ↦
            let key : lock_key n ≡ lock_key name = (eq_iff (lock_key n) (lock_key name)).0 same in
            let taken =
              server.set_taken s a.server_time (lock_key n) o owner ttl_ms
                (ap (server.value s a.server_time) key ∙ h.at a.server_time from before) in
            (
              subst (λ u. Held u name owner start end)
                  (sym (turn_kept server s n ttl_ms deadline o a taken)) h,
              Refused-ok name (acquire server s n ttl_ms deadline o (a ∷ [])).1 (λ handle got.
                  elim (turn_refused server s n ttl_ms deadline o a handle taken got) [ ]),
            )
        | inr other ↦
            let kept : Held (server.set s a.server_time (lock_key n) o ttl_ms).0 name owner start
                end =
              record {
                at = λ t from' before'.
                    server.value-set_other s a.server_time (lock_key n) o ttl_ms t (lock_key name)
                      other
                    ∙ h.at t from' before';
              } in
            (
              elim (turn-state server s n ttl_ms deadline o a) [
                | inl e ↦ subst (λ u. Held u name owner start end) (sym e) h
                | inr e ↦ subst (λ u. Held u name owner start end) (sym e) kept
              ],
              Refused-ok name (acquire server s n ttl_ms deadline o (a ∷ [])).1 (λ handle got same.
                  let no : (lock_key n == lock_key name) ≡ true =
                    (eq_iff (lock_key n) (lock_key name)).1 (
                      ap lock_key
                        (sym (turn_name server s n ttl_ms deadline o a handle got) ∙ same)) in
                  let bad : true ≡ false = sym no ∙ other in cc),
            )
      ]

  Held-script :
      (s : server.Keys) (name owner : String) (start end t : ℕ) (key o : String)
      → Held s name owner start end
      → start ≤ t
      → t < end
      → (o == owner) ≡ false
      → Held (release_script server s t key o).0 name owner start end
  Held-script s name owner start end t key o h from before foreign =
      elim (script-state server s t key o) [
        | inl kept ↦ subst (λ u. Held u name owner start end) (sym kept) h
        | inr (own, gone) ↦
            let other : (key == lock_key name) ≡ false = elim (Bool-cases (key == lock_key name)) [
              | inr differs ↦ differs
              | inl same ↦
                  let both : some o ≡ some owner =
                    sym own
                    ∙ ap (server.value s t) ((eq_iff key (lock_key name)).0 same)
                    ∙ h.at t from before in
                  ground (arith, both, foreign, eq_iff o owner)
            ] in
            subst (λ u. Held u name owner start end) (sym gone)
              (record {
                at = λ t' from' before'.
                    server.value-delete s t key t' (lock_key name)
                    ∙ rw other (h.at t' from' before');
              })
      ]

  Held-step :
      (s : server.Keys) (name owner : String) (start end : ℕ) (op : Op)
      → Held s name owner start end
      → Elsewhere owner start end op
      → Held (step s op).0 name owner start end × Refused name (step s op).1
  unfolding step Refused
  Held-step s name owner start end (tries n o ttl_ms deadline a) h e =
      Held-tries s name owner start end n o ttl_ms deadline a h e.from e.before
  Held-step s name owner start end (releases handle t wire) h e = (
    elim (release-state server s handle t wire) [
      | inl kept ↦ subst (λ u. Held u name owner start end) (sym kept) h
      | inr script ↦
          subst (λ u. Held u name owner start end) (sym script)
            (Held-script s name owner start end t (lock_key handle.name) handle.owner h e.from
              e.before e.foreign)
    ],
    tt,
  )

  Held-results :
      (s : server.Keys) (name owner : String) (start end : ℕ) (ops : List Op)
      → Held s name owner start end
      → All (Elsewhere owner start end) ops
      → All (Refused name) (results s ops)
        × ((t : ℕ)
            → start ≤ t
            → t < end
            → server.value (after s ops) t (lock_key name) ≡ some owner)
  unfolding results after
  Held-results s name owner start end [] h a = (tt, h.at)
  Held-results s name owner start end (op ∷ ops) h a =
      let (h', refused) = Held-step s name owner start end op h a.0 in
      let (rest, last) = Held-results (step s op).0 name owner start end ops h' a.1 in
      ((refused, rest), last)

  Held-acquired :
      (s : server.Keys) (name owner : String) (ttl_ms deadline : ℕ) (a : Attempt)
      (handle : LockHandle)
      → (acquire server s name ttl_ms deadline owner (a ∷ [])).1 ≡ some (ok handle)
      → Held
          (acquire server s name ttl_ms deadline owner (a ∷ [])).0
          name
          owner
          a.server_time
          (a.server_time + ttl_ms)
  Held-acquired s name owner ttl_ms deadline a handle got =
      elim (Option-cases (server.value s a.server_time (lock_key name))) [
        | inr (w, there) ↦
            elim (turn_refused server s name ttl_ms deadline owner a handle
              (server.set_taken s a.server_time (lock_key name) owner w ttl_ms there) got) [ ]
        | inl free ↦
            subst (λ u. Held u name owner a.server_time (a.server_time + ttl_ms))
              (sym (turn_granted server s name ttl_ms deadline owner a handle got))
              (record {
                at = λ t from before.
                    server.value-set s a.server_time (lock_key name) owner ttl_ms t free from
                    ∙ (let lt : ltb t (a.server_time + ttl_ms) ≡ true = ground (arith, before) in
                        rw lt refl);
              })
      ]

  -- While a lock that is acquired in one turn lasts, no call but its owner's release gives it out again
  -- or takes it away, in any interleaving of turns and releases, whose commands may fail on the way or
  -- lose their answers.
  pub acquire-excludes :
      (s : server.Keys) (name owner : String) (ttl_ms deadline : ℕ) (a : Attempt)
      (handle : LockHandle) (ops : List Op) (t : ℕ)
      → (acquire server s name ttl_ms deadline owner (a ∷ [])).1 ≡ some (ok handle)
      → All (Elsewhere owner a.server_time (a.server_time + ttl_ms)) ops
      → a.server_time ≤ t
      → t < a.server_time + ttl_ms
      → let s' = (acquire server s name ttl_ms deadline owner (a ∷ [])).0 in
        All (Refused name) (results s' ops)
        × (server.value (after s' ops) t (lock_key name) ≡ some owner)
  acquire-excludes s name owner ttl_ms deadline a handle ops t got others from before =
      let (refused, held) =
        Held-results (acquire server s name ttl_ms deadline owner (a ∷ [])).0 name owner
          a.server_time (a.server_time + ttl_ms) ops
          (Held-acquired s name owner ttl_ms deadline a handle got) others in
      (refused, held t from before)
