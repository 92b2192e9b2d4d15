-- ===== src/Orchestration/Documents.antt =====
-- The workflow dictionaries of agi_platform/orchestration.py, as records with the entries that the
-- engine writes; entries whose text is always the same are left out.
use agi_platform.Prelude.{ℕ, String, List}

pub record Observation : Type 0 where
  pub step_id : String
  pub agent : String
  pub timestamp : ℕ
  pub observation : String
  pub idempotency_key : String

pub record Step : Type 0 where
  pub id : String
  pub agent : String
  pub role : String
  pub action : String
  pub status : String
  pub observations : List Observation
  pub retries : ℕ
  pub idempotency_key : String

-- The entries of `workflow["events"]`, by their "type".
pub data WorkflowEvent : Type 0 where
  workflow_planned : String → ℕ → WorkflowEvent
  step_completed : Observation → WorkflowEvent
  workflow_completed : String → ℕ → WorkflowEvent

pub record Edge : Type 0 where
  pub source : String
  pub target : String

pub record Handoff : Type 0 where
  pub sender : String
  pub receiver : String
  pub message : String

pub record Document : Type 0 where
  pub task : String
  pub steps : List Step
  pub checkpoint : String
  pub status : String
  pub created_at : ℕ
  pub updated_at : ℕ
  pub events : List WorkflowEvent
  pub nodes : List String
  pub edges : List Edge
  pub conversation : List Handoff
  pub agents : List String
  pub competitive_capabilities : List String
