-- ===== src/Domain/Task/Passages.antt =====
-- What a task passes through, what stays possible, and what calls leave alone
-- (agi_platform/domain.py).
use agi_platform.Prelude.{none, List, [], ◌∷◌, Bool, true, false, ◌≡◌, ◌≢◌, refl, ◌∙◌, arith}
use agi_platform.Domain.States.{
  TaskState, pending, ready, waiting_tool, waiting_approval, retrying, task_allows,
}
use agi_platform.Domain.Entity.{Caller, Stamp}
use agi_platform.Domain.Task.{Task, transition_to}
use agi_platform.Domain.Machine.{Request, run}
use agi_platform.Domain.Machine.History.{visited, visited-run, Gate}
use agi_platform.Domain.Task.Histories.{machine, task_run, SameIdentity}

SameIdentity-transition_to :
    (o o₀ : Task) (target : TaskState) (caller : Caller) (stamp : Stamp)
    → SameIdentity o₀ o
    → SameIdentity o₀ (transition_to o target caller stamp).0
unfolding transition_to
SameIdentity-transition_to o o₀ target caller stamp h = ground arith

SameIdentity-run :
    (o o₀ : Task) (rs : List (Request TaskState))
    → SameIdentity o₀ o
    → SameIdentity o₀ (task_run o rs).0
unfolding run
SameIdentity-run o o₀ [] h = h
SameIdentity-run o o₀ (r ∷ rs) h =
    SameIdentity-run (transition_to o r.target r.caller r.stamp).0 o₀ rs
      (SameIdentity-transition_to o o₀ r.target r.caller r.stamp h)

-- Calls of `transition_to` never change a task's id, creation time, tenant, owner, lifecycle state
-- workflow or idempotency key.
SameIdentity-task_run :
    (o : Task) (rs : List (Request TaskState)) → SameIdentity o (task_run o rs).0
SameIdentity-task_run o rs = SameIdentity-run o o rs (record {
  id = refl;
  created_at = refl;
  tenant_id = refl;
  owner_id = refl;
  lifecycle_state = refl;
  workflow_id = refl;
  idempotency_key = refl;
})

-- The states that are reached without `ready`.
abbrev before_ready : TaskState → Bool
before_ready pending = true
before_ready TaskState.cancelled = true
before_ready _ = false

-- The states that are reached without `running`.
abbrev before_running : TaskState → Bool
before_running pending = true
before_running ready = true
before_running waiting_approval = true
before_running TaskState.failed = true
before_running retrying = true
before_running TaskState.cancelled = true
before_running _ = false

Gate-ready : Gate machine before_ready ready
unfolding task_allows
Gate-ready s TaskState.completed h a = ground arith
Gate-ready s _ h a = ground arith

Gate-running : Gate machine before_running TaskState.running
unfolding task_allows
Gate-running s TaskState.completed h a = ground arith
Gate-running s _ h a = ground arith

-- A task that was pending and is completed after some calls was moved to ready and to
-- running by calls among them.
task_completes_after_running :
    (o : Task) (rs : List (Request TaskState))
    → o.state ≡ TaskState.pending
    → (task_run o rs).0.state ≡ TaskState.completed
    → (visited machine ready (task_run o rs).1 ≡ true)
      × (visited machine TaskState.running (task_run o rs).1 ≡ true)
task_completes_after_running o rs start end = (
  visited-run machine before_ready ready Gate-ready o rs (rw start) (rw end),
  visited-run machine before_running TaskState.running Gate-running o rs (rw start) (rw end),
)

-- The targets that lead to `completed`.
abbrev way : TaskState → List TaskState
way pending = ready ∷ TaskState.running ∷ TaskState.completed ∷ []
way ready = TaskState.running ∷ TaskState.completed ∷ []
way TaskState.running = TaskState.completed ∷ []
way waiting_tool = TaskState.running ∷ TaskState.completed ∷ []
way waiting_approval = TaskState.running ∷ TaskState.completed ∷ []
way retrying = TaskState.running ∷ TaskState.completed ∷ []
way TaskState.failed = retrying ∷ TaskState.running ∷ TaskState.completed ∷ []
way TaskState.completed = []
way TaskState.cancelled = []

abbrev pub unconditional : Caller
unconditional = record {
  actor_id = none;
  expected_version = none;
  correlation_id = none;
  request_id = none;
}

-- Calls with the given targets, that expect no version.
abbrev pub requests : Stamp → List TaskState → List (Request TaskState)
requests stamp [] = []
requests stamp (t ∷ ts) =
    record { target = t; caller = unconditional; stamp = stamp } ∷ requests stamp ts

transition_to-unconditional :
    (o : Task) (t : TaskState) (stamp : Stamp)
    → task_allows o.state t ≡ true
    → (transition_to o t unconditional stamp).0.state ≡ t
unfolding transition_to
transition_to-unconditional o t stamp h = rw h

-- Every move of the list is allowed after the one before it.
abbrev Allowed : TaskState → List TaskState → Type 0
Allowed s [] = Unit
Allowed s (t ∷ ts) = (task_allows s t ≡ true) × Allowed t ts

abbrev end_of : TaskState → List TaskState → TaskState
end_of s [] = s
end_of s (t ∷ ts) = end_of t ts

run-requests :
    (ts : List TaskState) (o : Task) (s : TaskState) (stamp : Stamp)
    → o.state ≡ s
    → Allowed s ts
    → (task_run o (requests stamp ts)).0.state ≡ end_of s ts
unfolding run
run-requests [] o s stamp e h = e
run-requests (t ∷ ts) o s stamp e h =
    run-requests ts (transition_to o t unconditional stamp).0 t stamp
      (transition_to-unconditional o t stamp (rw e h.0)) h.1

way-Allowed :
    (s : TaskState)
    → s ≢ TaskState.cancelled
    → Allowed s (way s) × (end_of s (way s) ≡ TaskState.completed)
unfolding task_allows
way-Allowed TaskState.cancelled h = absurd (h refl)
way-Allowed pending h = ((refl, (refl, (refl, tt))), refl)
way-Allowed ready h = ((refl, (refl, tt)), refl)
way-Allowed TaskState.running h = ((refl, tt), refl)
way-Allowed waiting_tool h = ((refl, (refl, tt)), refl)
way-Allowed waiting_approval h = ((refl, (refl, tt)), refl)
way-Allowed retrying h = ((refl, (refl, tt)), refl)
way-Allowed TaskState.failed h = ((refl, (refl, (refl, tt))), refl)
way-Allowed TaskState.completed h = (tt, refl)

cancel_allowed :
    (s : TaskState)
    → s ≢ TaskState.cancelled
    → s ≢ TaskState.completed
    → task_allows s TaskState.cancelled ≡ true
unfolding task_allows
cancel_allowed s h k = ground arith

-- A task that is neither cancelled nor completed can still be completed, by some calls that expect
-- no version, and can be cancelled by one such call.
task_can_end :
    (o : Task) (stamp : Stamp)
    → o.state ≢ TaskState.cancelled
    → o.state ≢ TaskState.completed
    → (ts : List TaskState) × ((task_run o (requests stamp ts)).0.state ≡ TaskState.completed)
      × ((task_run o (requests stamp (TaskState.cancelled ∷ []))).0.state ≡ TaskState.cancelled)
task_can_end o stamp h k =
    let (allowed, ends) = way-Allowed o.state h in
    (
      way o.state,
      run-requests (way o.state) o o.state stamp refl allowed ∙ ends,
      run-requests (_ ∷ []) o o.state stamp refl (cancel_allowed o.state h k, tt),
    )
