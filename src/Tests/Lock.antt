-- ===== src/Tests/Lock.antt =====
-- The theorems on the distributed lock with a server of keys that expire (agi_platform/security.py).
use agi_platform.Prelude.{
  ℕ, ◌+◌, String, ◌==◌, List, [], ◌∷◌, Bool, true, false, Option, none, some, ltb, All,
  if◌then◌else◌, Result, ok, ◌≡◌, ◌≢◌, refl, arith, eq_iff, eq_refl,
}
use agi_platform.Security.Errors.{PlatformError}
use agi_platform.Security.Lock.{
  LockServer, Wire, answered, lost, LockHandle, Attempt, lock_key, sent, after_set, acquire,
  run_once,
}
use agi_platform.Security.Lock.Exclusive.{
  Op, tries, releases, Elsewhere, Refused, results, after, acquire-excludes,
}
use agi_platform.Security.Lock.Waiting.{Paced, acquire_ends, run_once-frees}

abbrev Kept : Type 0
Kept = Option (String × ℕ)

abbrev live : ℕ → Kept → Option String
live t none = none
live t (some (o, end)) = if ltb t end then some o else none

abbrev put_if_free :
    (String → Kept) → ℕ → String → String → ℕ → Option String → (String → Kept) × Bool
put_if_free s t k o ttl none = ((λ j. if k == j then some (o, t + ttl) else s j), true)
put_if_free s t k o ttl (some w) = (s, false)

abbrev server : LockServer
server = record {
  Keys = String → Kept;
  value = λ s t k. live t (s k);
  set = λ s t k o ttl. put_if_free s t k o ttl (live t (s k));
  delete = λ s t k j. if k == j then none else s j;
  set_taken = λ s t k o w ttl e. rw e refl;
  set_free = λ s t k o ttl e. rw e refl;
  value-set = λ s t k o ttl t' e le. rw (e, eq_refl k) refl;
  value-set_other = λ s t k o ttl t' j e. other s t k o ttl t' j e;
  value-delete = λ s t k t' j. deleted s k t' j;
}
  where
    other :
        (s : String → Kept) (t : ℕ) (k o : String) (ttl t' : ℕ) (j : String)
        → (k == j) ≡ false
        → live t' ((put_if_free s t k o ttl (live t (s k))).0 j) ≡ live t' (s j)
    other s t k o ttl t' j e = ground (arith, e)

    deleted :
        (s : String → Kept) (k : String) (t' : ℕ) (j : String)
        → live t' (if k == j then none else s j) ≡ (if k == j then none else live t' (s j))
    deleted s k t' j = ground arith

abbrev free : String → Kept
free k = none

abbrev turn : ℕ → Wire → Attempt
turn t wire = record { server_time = t; wire = wire; clock = t }

abbrev handle : String → LockHandle
handle owner = record { name = "job"; owner = owner; ttl_ms = 1000 }

-- A rival tries, loses an answer, releases what it does not have, and takes another lock.
abbrev rivals : List Op
rivals =
    tries "job" "rival" 1000 5000 (turn 20 answered)
    ∷ tries "job" "rival" 1000 5000 (turn 30 lost)
    ∷ releases (handle "rival") 40 answered
    ∷ tries "other" "rival" 1000 5000 (turn 50 answered)
    ∷ []

acquired :
    (acquire server free "job" 1000 5000 "me" (turn 10 answered ∷ [])).1 ≡ some (ok (handle "me"))
unfolding acquire sent after_set lock_key
acquired = refl

rivals-Elsewhere : All (Elsewhere "me" 10 1010) rivals
rivals-Elsewhere = (
  record { from = omega arith; before = omega arith; foreign = tt },
  (
    record { from = omega arith; before = omega arith; foreign = tt },
    (
      record {
        from = omega arith;
        before = omega arith;
        foreign = ground (arith, eq_iff "rival" "me");
      },
      (record { from = omega arith; before = omega arith; foreign = tt }, tt),
    ),
  ),
)

acquire-excludes_example :
    All
      (Refused server "job")
      (results server (acquire server free "job" 1000 5000 "me" (turn 10 answered ∷ [])).0 rivals)
    × (server.value
          (after server (acquire server free "job" 1000 5000 "me" (turn 10 answered ∷ [])).0 rivals)
          60
          (lock_key "job")
        ≡ some "me")
acquire-excludes_example =
    acquire-excludes server free "job" "me" 1000 5000 (turn 10 answered) (handle "me") rivals 60
      acquired rivals-Elsewhere (omega arith) (omega arith)

-- The lock is taken, for as long as the call waits.
abbrev taken : String → Kept
taken k = some ("rival", 100000)

waits-Paced : Paced 0 100 (turn 0 answered ∷ turn 100 answered ∷ turn 250 answered ∷ [])
unfolding Paced
waits-Paced = (omega arith, (omega arith, (omega arith, tt)))

acquire_ends_example :
    (r : Result PlatformError LockHandle) × ((acquire server taken "job" 1000 200 "me"
        (turn 0 answered ∷ turn 100 answered ∷ turn 250 answered ∷ [])).1
      ≡ some r)
acquire_ends_example =
    acquire_ends server taken "job" 1000 200 0 100 "me" (turn 0 answered)
      (turn 100 answered ∷ turn 250 answered ∷ []) waits-Paced (omega arith)

abbrev job : (String → Kept) → (String → Kept) × Result PlatformError ℕ
job s = (s, ok 7)

acquired_state :
    acquire server free "job" 1000 5000 "me" (turn 10 answered ∷ [])
    ≡ ((λ j. if lock_key "job" == j then some ("me", 1010) else none), some (ok (handle "me")))
unfolding acquire sent after_set lock_key
acquired_state = refl

run_once-frees_example :
    ((run_once server job free "job" 1000 5000 "me" (turn 10 answered ∷ []) 20 answered).1
      ≡ some (ok 7))
    × (server.value
          (run_once server job free "job" 1000 5000 "me" (turn 10 answered ∷ []) 20 answered).0
          20
          (lock_key "job")
        ≢ some "me")
run_once-frees_example =
    run_once-frees server job free (λ j. if lock_key "job" == j then some ("me", 1010) else none)
      "job" 1000 5000 "me" (turn 10 answered ∷ []) (handle "me") 20 acquired_state
