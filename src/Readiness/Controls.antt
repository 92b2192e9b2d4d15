-- ===== src/Readiness/Controls.antt =====
-- The controls of each level, and the modules that implement the levels (agi_platform/readiness.py).
use agi_platform.Prelude.{ℕ, String, List, [], ◌∷◌, Bool, true}

-- "GREEN", "YELLOW" and "RED"
pub data Status : Type 0 where
  green yellow red : Status

pub record ControlAssessment : Type 0 where
  pub name : String
  pub status : Status
  pub evidence : String
  pub required_fix : String
  pub critical : Bool

abbrev control : String → Status → String → String → ControlAssessment
control name status evidence required_fix = record {
  name = name;
  status = status;
  evidence = evidence;
  required_fix = required_fix;
  critical = true;
}

abbrev pub implementation_modules : List (ℕ × String)
implementation_modules =
    (0, "agi_platform.llm.core")
    ∷ (1, "agi_platform.memory.core")
    ∷ (2, "agi_platform.guardian.core")
    ∷ (3, "agi_platform.research.core")
    ∷ (4, "agi_platform.chinese_hub.core")
    ∷ (5, "agi_platform.analysis.core")
    ∷ (6, "agi_platform.github_intel.core")
    ∷ (7, "agi_platform.sandbox.core")
    ∷ (8, "agi_platform.knowledge_graph.core")
    ∷ (9, "agi_platform.orchestration")
    ∷ (10, "agi_platform.governance.core")
    ∷ (11, "agi_platform.evolution.core")
    ∷ []

abbrev pub critical_controls : List (ℕ × List ControlAssessment)
critical_controls =
    (
      0,
      control "provider_resilience" yellow
            "LLMCore routes through LLMGateway with retry/backoff, circuit breaker, provider health, fallback, and budget enforcement; production tuning remains deployment-specific."
            "Persist full LLM accounting to PostgreSQL and tune provider budgets per tenant."
          ∷ control "durable_usage_accounting" red "LLMCore.usage is in-process memory."
              "Persist usage/cost records transactionally."
          ∷ [],
    )
    ∷ (
      1,
      control "durable_memory" yellow
            "MemoryLayer persists canonical metadata through SQLAlchemy/PostgreSQL-compatible tables; Qdrant remains an optional vector dependency."
            "Add production Qdrant health enforcement and PostgreSQL RLS policies."
          ∷ [],
    )
    ∷ (
      2,
      control "immutable_memory_audit" red
            "MemoryGuardian audit/reviews/versions are in-process containers."
            "Persist immutable audit events and guarded memory versions."
          ∷ [],
    )
    ∷ (
      3,
      control "safe_external_research" yellow
            "ResearchLayer has timeouts but no SSRF/size/content-type policy."
            "Add SSRF controls, response limits, source policy and evidence persistence."
          ∷ [],
    )
    ∷ (
      4,
      control "translation_provenance" yellow
            "ChineseResearchHub keeps original/translated fields but no durable evidence/version model."
            "Persist original/translation/evidence records with provider/version metadata."
          ∷ [],
    )
    ∷ (
      5,
      control "analysis_finding_model" yellow
            "Analysis findings are deterministic but lack stable finding_id/fingerprint/status persistence."
            "Add canonical finding schema, fingerprints, status lifecycle and persistence."
          ∷ [],
    )
    ∷ (
      6,
      control "bounded_repository_indexing" yellow
            "GitHubIntelligence fetches repo/contributors with timeout but no pagination/rate-limit checkpointing."
            "Add incremental indexing, pagination, content hashes and rate-limit handling."
          ∷ [],
    )
    ∷ (
      7,
      control "strong_sandbox_isolation" yellow
            "Sandbox policy now declares container/microVM controls and fail-closed local deny rules; local subprocess fallback is still not a production isolation boundary."
            "Run production workloads in non-root read-only container or microVM with seccomp/AppArmor and no host mounts."
          ∷ [],
    )
    ∷ (
      8,
      control "durable_graph" red "KnowledgeGraph.nodes/edges are in-process containers."
            "Persist graph entities/relationships in Neo4j with tenant constraints and traversal limits."
          ∷ [],
    )
    ∷ (
      9,
      control "durable_workflow_engine" yellow
            "WorkflowStateStore persists runs/tasks/checkpoints/events in SQL with leases and idempotency keys; full worker side-effect execution is still a later phase."
            "Add production worker scheduler and external side-effect execution records."
          ∷ [],
    )
    ∷ (
      10,
      control "approval_governance" red
            "ArchitectureGovernance decisions/reviews are in-process and low-risk auto-approval lacks scoped approval records."
            "Persist ADR records and enforce explicit approval gates for high-risk actions."
          ∷ [],
    )
    ∷ (
      11,
      control "self_improvement_gate" yellow
            "SelfImprovementEngine only proposes; no mutation path exists, but no formal approval lifecycle is enforced."
            "Model proposal/benchmark/approval/deploy/rollback lifecycle with policy gates."
          ∷ [],
    )
    ∷ []
