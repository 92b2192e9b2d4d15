-- ===== src/Domain/Task/Histories.antt =====
-- The histories of a task under calls of `transition_to` (agi_platform/domain.py).
use agi_platform.Prelude.{
  ℕ, ◌+◌, ◌≤◌, some, List, [], true, false, ◌≡◌, refl, ◌⊎◌, ok, raise, length, arith,
}
use agi_platform.Domain.States.{TaskState, task_state_value, task_allows}
use agi_platform.Domain.Entity.{state_error, concurrency_error, Event, Caller, Stamp, is_stale}
use agi_platform.Domain.Task.{Task, moved, transitioned, transition_to}
use agi_platform.Domain.Machine.{Machine, Request, run}
use agi_platform.Domain.Machine.History.{
  View, replay, replay-run, version-run, Expect, one_event, closed_run,
}

pub transition_to_moved :
    (o : Task) (target : TaskState) (caller : Caller) (stamp : Stamp)
    → is_stale caller.expected_version o.version ≡ false
    → task_allows o.state target ≡ true
    → (o' : Task) × (e : Event) × (transition_to o target caller stamp ≡ (o', ok e))
      × (o'.state ≡ target)
      × (o'.version ≡ o.version + 1)
      × (e.payload.from_state ≡ task_state_value o.state)
      × (e.payload.to_state ≡ task_state_value target)
      × (e.payload.entity_version ≡ o.version + 1)
unfolding transition_to
transition_to_moved o target caller stamp fresh allowed =
    let o' = moved target stamp o in
    (o', transitioned o.state caller stamp o', rw (fresh, allowed), refl, refl, refl, refl, refl)

pub transition_to_stale :
    (o : Task) (target : TaskState) (caller : Caller) (stamp : Stamp)
    → is_stale caller.expected_version o.version ≡ true
    → transition_to o target caller stamp ≡ (o, raise concurrency_error)
unfolding transition_to
transition_to_stale o target caller stamp stale = rw stale

pub transition_to_refused :
    (o : Task) (target : TaskState) (caller : Caller) (stamp : Stamp)
    → is_stale caller.expected_version o.version ≡ false
    → task_allows o.state target ≡ false
    → transition_to o target caller stamp ≡ (o, raise state_error)
unfolding transition_to
transition_to_refused o target caller stamp fresh refused = rw (fresh, refused)

abbrev pub machine : Machine TaskState
machine = record {
  Obj = Task;
  state = λ o. o.state;
  version = λ o. o.version;
  value = task_state_value;
  allows = task_allows;
  call = transition_to;
  call_stale = transition_to_stale;
  call_refused = transition_to_refused;
  call_moved = transition_to_moved;
}

abbrev pub task_run : Task → List (Request TaskState) → Task × List Event
task_run = run machine

abbrev pub task_view : Task → View
task_view o = (task_state_value o.state, o.version)

-- For any task and any calls of `transition_to`, failed calls among them: the events of the calls
-- that succeeded, replayed from the text of the first state and the first version, each fitting the
-- state and version before it, end in those of the last, and the version grew by one for each.
replay-task_run :
    (o : Task) (rs : List (Request TaskState))
    → let (last, events) = task_run o rs in
      (replay (task_view o) events ≡ some (task_view last))
      × (last.version ≡ o.version + length events)
replay-task_run o rs = (replay-run machine o rs, version-run machine o rs)

-- Of any calls that all expect one and the same version, at most one succeeds, whatever the task's
-- own version and the targets.
task_one_writer :
    (o : Task) (v : ℕ) (rs : List (Request TaskState))
    → Expect machine v rs
    → length (task_run o rs).1 ≤ 1
task_one_writer o v rs h = one_event machine o v rs h

task_allows_closed :
    (s t : TaskState)
    → (s ≡ TaskState.completed) ⊎ (s ≡ TaskState.cancelled)
    → task_allows s t ≡ false
unfolding task_allows
task_allows_closed s t h = ground arith

-- A completed or cancelled task stays as it is under any calls, and every call raises.
task_closed :
    (o : Task) (rs : List (Request TaskState))
    → (o.state ≡ TaskState.completed) ⊎ (o.state ≡ TaskState.cancelled)
    → task_run o rs ≡ (o, [])
task_closed o rs h = closed_run machine o rs (λ t. task_allows_closed o.state t h)

-- What a call of `transition_to` never writes.
pub record SameIdentity (o o' : Task) : Type 0 where
  pub id : o'.id ≡ o.id
  pub created_at : o'.created_at ≡ o.created_at
  pub tenant_id : o'.tenant_id ≡ o.tenant_id
  pub owner_id : o'.owner_id ≡ o.owner_id
  pub lifecycle_state : o'.lifecycle_state ≡ o.lifecycle_state
  pub workflow_id : o'.workflow_id ≡ o.workflow_id
  pub idempotency_key : o'.idempotency_key ≡ o.idempotency_key
