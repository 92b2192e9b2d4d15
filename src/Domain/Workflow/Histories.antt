-- ===== src/Domain/Workflow/Histories.antt =====
-- The histories of a workflow under calls of `transition_to` (agi_platform/domain.py).
use agi_platform.Prelude.{
  ℕ, ◌+◌, ◌≤◌, some, List, [], true, false, ◌≡◌, refl, ◌⊎◌, ok, raise, length, arith,
}
use agi_platform.Domain.States.{WorkflowState, workflow_state_value, workflow_allows}
use agi_platform.Domain.Entity.{state_error, concurrency_error, Event, Caller, Stamp, is_stale}
use agi_platform.Domain.Workflow.{Workflow, moved, transitioned, transition_to}
use agi_platform.Domain.Machine.{Machine, Request, run}
use agi_platform.Domain.Machine.History.{
  View, replay, replay-run, version-run, Expect, one_event, closed_run,
}

pub transition_to_moved :
    (o : Workflow) (target : WorkflowState) (caller : Caller) (stamp : Stamp)
    → is_stale caller.expected_version o.version ≡ false
    → workflow_allows o.state target ≡ true
    → (o' : Workflow) × (e : Event) × (transition_to o target caller stamp ≡ (o', ok e))
      × (o'.state ≡ target)
      × (o'.version ≡ o.version + 1)
      × (e.payload.from_state ≡ workflow_state_value o.state)
      × (e.payload.to_state ≡ workflow_state_value target)
      × (e.payload.entity_version ≡ o.version + 1)
unfolding transition_to
transition_to_moved o target caller stamp fresh allowed =
    let o' = moved target stamp o in
    (o', transitioned o.state caller stamp o', rw (fresh, allowed), refl, refl, refl, refl, refl)

pub transition_to_stale :
    (o : Workflow) (target : WorkflowState) (caller : Caller) (stamp : Stamp)
    → is_stale caller.expected_version o.version ≡ true
    → transition_to o target caller stamp ≡ (o, raise concurrency_error)
unfolding transition_to
transition_to_stale o target caller stamp stale = rw stale

pub transition_to_refused :
    (o : Workflow) (target : WorkflowState) (caller : Caller) (stamp : Stamp)
    → is_stale caller.expected_version o.version ≡ false
    → workflow_allows o.state target ≡ false
    → transition_to o target caller stamp ≡ (o, raise state_error)
unfolding transition_to
transition_to_refused o target caller stamp fresh refused = rw (fresh, refused)

abbrev pub machine : Machine WorkflowState
machine = record {
  Obj = Workflow;
  state = λ o. o.state;
  version = λ o. o.version;
  value = workflow_state_value;
  allows = workflow_allows;
  call = transition_to;
  call_stale = transition_to_stale;
  call_refused = transition_to_refused;
  call_moved = transition_to_moved;
}

abbrev pub workflow_run : Workflow → List (Request WorkflowState) → Workflow × List Event
workflow_run = run machine

abbrev pub workflow_view : Workflow → View
workflow_view o = (workflow_state_value o.state, o.version)

-- For any workflow and any calls of `transition_to`, failed calls among them: the events of the calls
-- that succeeded, replayed from the text of the first state and the first version, each fitting the
-- state and version before it, end in those of the last, and the version grew by one for each.
pub replay-workflow_run :
    (o : Workflow) (rs : List (Request WorkflowState))
    → let (last, events) = workflow_run o rs in
      (replay (workflow_view o) events ≡ some (workflow_view last))
      × (last.version ≡ o.version + length events)
replay-workflow_run o rs = (replay-run machine o rs, version-run machine o rs)

-- Of any calls that all expect one and the same version, at most one succeeds, whatever the workflow's
-- own version and the targets.
workflow_one_writer :
    (o : Workflow) (v : ℕ) (rs : List (Request WorkflowState))
    → Expect machine v rs
    → length (workflow_run o rs).1 ≤ 1
workflow_one_writer o v rs h = one_event machine o v rs h

workflow_allows_closed :
    (s t : WorkflowState)
    → (s ≡ WorkflowState.completed) ⊎ (s ≡ WorkflowState.cancelled)
    → workflow_allows s t ≡ false
unfolding workflow_allows
workflow_allows_closed s t h = ground arith

-- A completed or cancelled workflow stays as it is under any calls, and every call raises.
workflow_closed :
    (o : Workflow) (rs : List (Request WorkflowState))
    → (o.state ≡ WorkflowState.completed) ⊎ (o.state ≡ WorkflowState.cancelled)
    → workflow_run o rs ≡ (o, [])
workflow_closed o rs h = closed_run machine o rs (λ t. workflow_allows_closed o.state t h)

-- What a call of `transition_to` never writes.
pub record SameIdentity (o o' : Workflow) : Type 0 where
  pub id : o'.id ≡ o.id
  pub created_at : o'.created_at ≡ o.created_at
  pub tenant_id : o'.tenant_id ≡ o.tenant_id
  pub owner_id : o'.owner_id ≡ o.owner_id
  pub lifecycle_state : o'.lifecycle_state ≡ o.lifecycle_state
  pub idempotency_key : o'.idempotency_key ≡ o.idempotency_key
