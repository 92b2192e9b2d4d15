-- ===== src/Domain/Machine.antt =====
-- What `Workflow.transition_to` and `Task.transition_to` (agi_platform/domain.py) have in common: an
-- interface of objects with a state and a version, and the histories that calls of the method make.
pub mod History
use agi_platform.Prelude.{
  ℕ, ◌+◌, String, Option, some, List, [], ◌∷◌, Bool, true, false, Result, ok, raise, ◌≡◌,
}
use agi_platform.Domain.Entity.{
  DomainError, state_error, concurrency_error, Event, Caller, Stamp, is_stale,
}

pub record Machine (State : Type 0) : Type 1 where
  pub Obj : Type 0
  pub state : Obj → State
  pub version : Obj → ℕ
  pub value : State → String
  pub allows : State → State → Bool
  pub call : Obj → State → Caller → Stamp → Obj × Result DomainError Event
  pub call_stale :
      (o : Obj) (target : State) (caller : Caller) (stamp : Stamp)
      → is_stale caller.expected_version (version o) ≡ true
      → call o target caller stamp ≡ (o, raise concurrency_error)
  pub call_refused :
      (o : Obj) (target : State) (caller : Caller) (stamp : Stamp)
      → is_stale caller.expected_version (version o) ≡ false
      → allows (state o) target ≡ false
      → call o target caller stamp ≡ (o, raise state_error)
  pub call_moved :
      (o : Obj) (target : State) (caller : Caller) (stamp : Stamp)
      → is_stale caller.expected_version (version o) ≡ false
      → allows (state o) target ≡ true
      → (o' : Obj) × (e : Event) × (call o target caller stamp ≡ (o', ok e))
        × (state o' ≡ target)
        × (version o' ≡ version o + 1)
        × (e.payload.from_state ≡ value (state o))
        × (e.payload.to_state ≡ value target)
        × (e.payload.entity_version ≡ version o + 1)

pub record Request (State : Type 0) : Type 0 where
  pub target : State
  pub caller : Caller
  pub stamp : Stamp

-- The events of the calls that did not raise.
abbrev pub keep : Result DomainError Event → List Event → List Event
keep (ok e) es = e ∷ es
keep (raise _) es = es

-- Calls in turn; one that raises leaves the rest to go on.
module _ {S : Type 0} (m : Machine S) where
  unfoldable pub run : m.Obj → List (Request S) → m.Obj × List Event
  run o [] = (o, [])
  run o (r ∷ rs) =
      let (o', result) = m.call o r.target r.caller r.stamp in
      let (last, es) = run o' rs in (last, keep result es)
