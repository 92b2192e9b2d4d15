-- ===== src/Domain/Workflow/Passages.antt =====
-- What a workflow passes through, what stays possible, and what calls leave alone
-- (agi_platform/domain.py).
use agi_platform.Prelude.{none, List, [], ◌∷◌, Bool, true, false, ◌≡◌, ◌≢◌, refl, ◌∙◌, arith}
use agi_platform.Domain.States.{
  WorkflowState, planned, waiting, paused, recovering, workflow_allows,
}
use agi_platform.Domain.Entity.{Caller, Stamp}
use agi_platform.Domain.Workflow.{Workflow, transition_to}
use agi_platform.Domain.Machine.{Request, run}
use agi_platform.Domain.Machine.History.{visited, visited-run, Gate}
use agi_platform.Domain.Workflow.Histories.{machine, workflow_run, SameIdentity}

SameIdentity-transition_to :
    (o o₀ : Workflow) (target : WorkflowState) (caller : Caller) (stamp : Stamp)
    → SameIdentity o₀ o
    → SameIdentity o₀ (transition_to o target caller stamp).0
unfolding transition_to
SameIdentity-transition_to o o₀ target caller stamp h = ground arith

SameIdentity-run :
    (o o₀ : Workflow) (rs : List (Request WorkflowState))
    → SameIdentity o₀ o
    → SameIdentity o₀ (workflow_run o rs).0
unfolding run
SameIdentity-run o o₀ [] h = h
SameIdentity-run o o₀ (r ∷ rs) h =
    SameIdentity-run (transition_to o r.target r.caller r.stamp).0 o₀ rs
      (SameIdentity-transition_to o o₀ r.target r.caller r.stamp h)

-- Calls of `transition_to` never change a workflow's id, creation time, tenant, owner, lifecycle state
-- or idempotency key.
SameIdentity-workflow_run :
    (o : Workflow) (rs : List (Request WorkflowState)) → SameIdentity o (workflow_run o rs).0
SameIdentity-workflow_run o rs = SameIdentity-run o o rs (record {
  id = refl;
  created_at = refl;
  tenant_id = refl;
  owner_id = refl;
  lifecycle_state = refl;
  idempotency_key = refl;
})

-- The states that are reached without `planned`.
abbrev before_planned : WorkflowState → Bool
before_planned WorkflowState.created = true
before_planned WorkflowState.cancelled = true
before_planned _ = false

-- The states that are reached without `running`.
abbrev before_running : WorkflowState → Bool
before_running WorkflowState.created = true
before_running planned = true
before_running paused = true
before_running WorkflowState.cancelled = true
before_running _ = false

Gate-planned : Gate machine before_planned planned
unfolding workflow_allows
Gate-planned s WorkflowState.completed h a = ground arith
Gate-planned s _ h a = ground arith

Gate-running : Gate machine before_running WorkflowState.running
unfolding workflow_allows
Gate-running s WorkflowState.completed h a = ground arith
Gate-running s _ h a = ground arith

-- A workflow that was created and is completed after some calls was moved to planned and to
-- running by calls among them.
workflow_completes_after_running :
    (o : Workflow) (rs : List (Request WorkflowState))
    → o.state ≡ WorkflowState.created
    → (workflow_run o rs).0.state ≡ WorkflowState.completed
    → (visited machine planned (workflow_run o rs).1 ≡ true)
      × (visited machine WorkflowState.running (workflow_run o rs).1 ≡ true)
workflow_completes_after_running o rs start end = (
  visited-run machine before_planned planned Gate-planned o rs (rw start) (rw end),
  visited-run machine before_running WorkflowState.running Gate-running o rs (rw start) (rw end),
)

-- The targets that lead to `completed`.
abbrev way : WorkflowState → List WorkflowState
way WorkflowState.created = planned ∷ WorkflowState.running ∷ WorkflowState.completed ∷ []
way planned = WorkflowState.running ∷ WorkflowState.completed ∷ []
way WorkflowState.running = WorkflowState.completed ∷ []
way waiting = WorkflowState.running ∷ WorkflowState.completed ∷ []
way paused = WorkflowState.running ∷ WorkflowState.completed ∷ []
way WorkflowState.failed = recovering ∷ WorkflowState.running ∷ WorkflowState.completed ∷ []
way recovering = WorkflowState.running ∷ WorkflowState.completed ∷ []
way WorkflowState.completed = []
way WorkflowState.cancelled = []

abbrev pub unconditional : Caller
unconditional = record {
  actor_id = none;
  expected_version = none;
  correlation_id = none;
  request_id = none;
}

-- Calls with the given targets, that expect no version.
abbrev pub requests : Stamp → List WorkflowState → List (Request WorkflowState)
requests stamp [] = []
requests stamp (t ∷ ts) =
    record { target = t; caller = unconditional; stamp = stamp } ∷ requests stamp ts

transition_to-unconditional :
    (o : Workflow) (t : WorkflowState) (stamp : Stamp)
    → workflow_allows o.state t ≡ true
    → (transition_to o t unconditional stamp).0.state ≡ t
unfolding transition_to
transition_to-unconditional o t stamp h = rw h

-- Every move of the list is allowed after the one before it.
abbrev Allowed : WorkflowState → List WorkflowState → Type 0
Allowed s [] = Unit
Allowed s (t ∷ ts) = (workflow_allows s t ≡ true) × Allowed t ts

abbrev end_of : WorkflowState → List WorkflowState → WorkflowState
end_of s [] = s
end_of s (t ∷ ts) = end_of t ts

run-requests :
    (ts : List WorkflowState) (o : Workflow) (s : WorkflowState) (stamp : Stamp)
    → o.state ≡ s
    → Allowed s ts
    → (workflow_run o (requests stamp ts)).0.state ≡ end_of s ts
unfolding run
run-requests [] o s stamp e h = e
run-requests (t ∷ ts) o s stamp e h =
    run-requests ts (transition_to o t unconditional stamp).0 t stamp
      (transition_to-unconditional o t stamp (rw e h.0)) h.1

way-Allowed :
    (s : WorkflowState)
    → s ≢ WorkflowState.cancelled
    → Allowed s (way s) × (end_of s (way s) ≡ WorkflowState.completed)
unfolding workflow_allows
way-Allowed WorkflowState.cancelled h = absurd (h refl)
way-Allowed WorkflowState.created h = ((refl, (refl, (refl, tt))), refl)
way-Allowed planned h = ((refl, (refl, tt)), refl)
way-Allowed WorkflowState.running h = ((refl, tt), refl)
way-Allowed waiting h = ((refl, (refl, tt)), refl)
way-Allowed paused h = ((refl, (refl, tt)), refl)
way-Allowed WorkflowState.failed h = ((refl, (refl, (refl, tt))), refl)
way-Allowed recovering h = ((refl, (refl, tt)), refl)
way-Allowed WorkflowState.completed h = (tt, refl)

cancel_allowed :
    (s : WorkflowState)
    → s ≢ WorkflowState.cancelled
    → s ≢ WorkflowState.completed
    → workflow_allows s WorkflowState.cancelled ≡ true
unfolding workflow_allows
cancel_allowed s h k = ground arith

-- A workflow that is neither cancelled nor completed can still be completed, by some calls that expect
-- no version, and can be cancelled by one such call.
workflow_can_end :
    (o : Workflow) (stamp : Stamp)
    → o.state ≢ WorkflowState.cancelled
    → o.state ≢ WorkflowState.completed
    → (ts : List WorkflowState) × ((workflow_run o (requests stamp ts)).0.state
        ≡ WorkflowState.completed)
      × ((workflow_run o (requests stamp (WorkflowState.cancelled ∷ []))).0.state
          ≡ WorkflowState.cancelled)
workflow_can_end o stamp h k =
    let (allowed, ends) = way-Allowed o.state h in
    (
      way o.state,
      run-requests (way o.state) o o.state stamp refl allowed ∙ ends,
      run-requests (_ ∷ []) o o.state stamp refl (cancel_allowed o.state h k, tt),
    )
