-- ===== src/Readiness/Catalog.antt =====
-- The catalogue of levels (agi_platform/catalog.py).
use agi_platform.Prelude.{ℕ, String, List, [], ◌∷◌, Result, ok, raise, eqb, if◌then◌else◌}

pub record PlatformLevel : Type 0 where
  pub level : ℕ
  pub name : String
  pub purpose : String
  pub modules : List String
  pub api : List String
  pub database : List String
  pub metrics : List String
  pub security : List String

pub data KeyError : Type 0 where
  key_error : KeyError

abbrev platform_level :
    ℕ
    → String
    → String
    → List String
    → List String
    → List String
    → List String
    → List String
    → PlatformLevel
platform_level level name purpose modules api database metrics security = record {
  level = level;
  name = name;
  purpose = purpose;
  modules = modules;
  api = api;
  database = database;
  metrics = metrics;
  security = security;
}

abbrev pub platform_levels : List PlatformLevel
platform_levels =
    platform_level 0 "LLM Core"
      "Unified access to model providers with routing, failover, usage accounting, and validation."
      ("providers/" ∷ "router/" ∷ "registry/" ∷ "telemetry/" ∷ [])
      ("/chat" ∷ "/completion" ∷ "/embeddings" ∷ "/models" ∷ [])
      ("models" ∷ "providers" ∷ "usage" ∷ "costs" ∷ [])
      ("tokens_used" ∷ "cost" ∷ "latency" ∷ "errors" ∷ [])
      ("provider credential isolation" ∷ "request validation" ∷ "rate limiting" ∷ [])
    ∷ platform_level 1 "Memory Layer"
        "Enterprise memory storage, retrieval, ranking, consolidation, expiration, and search."
        ("working_memory/" ∷ "episodic_memory/" ∷ "semantic_memory/" ∷ "retrieval/"
          ∷ "consolidation/" ∷ [])
        ("/memory/store" ∷ "/memory/search" ∷ "/memory/retrieve" ∷ [])
        ("memories" ∷ "memory_embeddings" ∷ "memory_archives" ∷ [])
        ("memory_search_latency" ∷ "memories_stored" ∷ [])
        ("tenant scoping" ∷ "content classification" ∷ "retention policies" ∷ [])
    ∷ platform_level 2 "Memory Guardian"
        "Governance controls for memory quality, review, rollback, audit, and trust scoring."
        ("validator/" ∷ "deduplication/" ∷ "approval/" ∷ "audit/" ∷ "rollback/" ∷ [])
        ("/guardian/review" ∷ "/guardian/audit" ∷ [])
        ("memory_audit" ∷ "memory_versions" ∷ "memory_reviews" ∷ [])
        ("review_queue_depth" ∷ "memory_risk_score" ∷ [])
        ("human approval gates" ∷ "immutable audit trail" ∷ "rollback authorization" ∷ [])
    ∷ platform_level 3 "Research Layer"
        "Evidence collection, source validation, trust ranking, reporting, and threat extraction."
        ("collectors/" ∷ "extraction/" ∷ "ranking/" ∷ "reporting/" ∷ [])
        ("/research/query" ∷ "/research/report" ∷ [])
        ("research_sources" ∷ "evidence" ∷ "research_reports" ∷ [])
        ("source_trust" ∷ "report_latency" ∷ [])
        ("source allowlists" ∷ "evidence provenance" ∷ "malicious content isolation" ∷ [])
    ∷ platform_level 4 "Chinese Research Hub"
        "Chinese-language ingestion, translation, classification, NER, IOC extraction, and enrichment."
        ("ingestion/" ∷ "translation/" ∷ "classification/" ∷ "threat_extraction/" ∷ "enrichment/"
          ∷ [])
        ("/chinese/articles" ∷ "/chinese/analyze" ∷ [])
        ("chinese_articles" ∷ "translations" ∷ "extracted_iocs" ∷ [])
        ("translation_latency" ∷ "iocs_extracted" ∷ [])
        ("original-source preservation" ∷ "translation traceability" ∷ "content safety checks" ∷ [])
    ∷ platform_level 5 "Analysis Layer"
        "Static, dependency, architecture, security, and code-quality analysis."
        ("static_analysis/" ∷ "dependency_analysis/" ∷ "architecture_analysis/"
          ∷ "security_analysis/" ∷ "repository_analysis/" ∷ [])
        ("/analyze/code" ∷ "/analyze/repository" ∷ []) ("analysis_runs" ∷ "analysis_findings" ∷ [])
        ("findings_count" ∷ "analysis_runtime" ∷ [])
        ("sandboxed scanners" ∷ "repository allowlists" ∷ "secret redaction" ∷ [])
    ∷ platform_level 6 "GitHub Intelligence"
        "Repository indexing, commit/issue/PR analysis, contributor graphing, and knowledge extraction."
        ("repository_indexer/" ∷ "commit_analyzer/" ∷ "issue_analyzer/" ∷ "pr_analyzer/"
          ∷ "dependency_graph/" ∷ "knowledge_extractor/" ∷ [])
        ("/github/repositories" ∷ "/github/analyze" ∷ [])
        ("repositories" ∷ "commits" ∷ "issues" ∷ "pull_requests" ∷ "dependencies" ∷ [])
        ("repos_indexed" ∷ "github_api_errors" ∷ [])
        ("token least privilege" ∷ "webhook signature validation" ∷ "PII minimization" ∷ [])
    ∷ platform_level 7 "Sandbox Lab"
        "Secure execution with Docker isolation, artifacts, limits, policies, monitoring, and cleanup."
        ("runtime/" ∷ "isolation/" ∷ "monitoring/" ∷ "artifacts/" ∷ "cleanup/" ∷ [])
        ("/sandbox/execute" ∷ "/sandbox/artifacts" ∷ []) ("sandbox_runs" ∷ "sandbox_artifacts" ∷ [])
        ("cpu" ∷ "memory" ∷ "network" ∷ "runtime" ∷ [])
        ("network policies" ∷ "resource quotas" ∷ "workspace isolation" ∷ [])
    ∷ platform_level 8 "Knowledge Graph"
        "Neo4j-backed entity, memory, research, repository, threat, and agent graphs."
        ("entities/" ∷ "relationships/" ∷ "graph_store/" ∷ "graph_search/" ∷ "analytics/" ∷ [])
        ("/graph/search" ∷ "/graph/traverse" ∷ []) ("graph_entities" ∷ "graph_relationships" ∷ [])
        ("graph_query_latency" ∷ "relationships_discovered" ∷ [])
        ("relationship ACLs" ∷ "query limits" ∷ "tenant labels" ∷ [])
    ∷ platform_level 9 "Orchestrator"
        "LangGraph-ready workflow, routing, checkpointing, recovery, human-in-loop, retry, and context routing."
        ("workflow_engine/" ∷ "task_router/" ∷ "agent_router/" ∷ "checkpoint_manager/"
          ∷ "recovery_manager/" ∷ "planner/" ∷ [])
        ("/orchestrate" ∷ "/workflows" ∷ []) ("workflow_runs" ∷ "workflow_checkpoints" ∷ [])
        ("workflow_success_rate" ∷ "retry_count" ∷ [])
        ("workflow policy enforcement" ∷ "human approval checkpoints" ∷ "tool permissions" ∷ [])
    ∷ platform_level 10 "Architecture Governance"
        "Architecture proposal, decision, review, approval, risk, and version governance."
        ("proposals/" ∷ "decisions/" ∷ "reviews/" ∷ "risk_management/" ∷ "approvals/" ∷ [])
        ("/governance/proposals" ∷ "/governance/decisions" ∷ [])
        ("architecture_decisions" ∷ "architecture_reviews" ∷ [])
        ("approval_latency" ∷ "risk_score" ∷ [])
        ("segregation of duties" ∷ "ADR immutability" ∷ "risk acceptance records" ∷ [])
    ∷ platform_level 11 "Self Improvement"
        "Telemetry analysis, evaluation, pattern discovery, optimization suggestions, and improvement proposals."
        ("telemetry/" ∷ "evaluation/" ∷ "optimization/" ∷ "learning/" ∷ "pattern_discovery/"
          ∷ "improvement_engine/" ∷ [])
        ("/evolution/proposals" ∷ "/evolution/evaluate" ∷ [])
        ("improvement_proposals" ∷ "evaluation_runs" ∷ [])
        ("success_rate" ∷ "failure_rate" ∷ "tool_effectiveness" ∷ "agent_effectiveness" ∷ [])
        ("proposal approval gates" ∷ "experiment isolation" ∷ "regression checks" ∷ [])
    ∷ []

-- `get_level`, over the levels that are left
unfoldable pub find_level : ℕ → List PlatformLevel → Result KeyError PlatformLevel
find_level level [] = raise key_error
find_level level (item ∷ items) = if eqb item.level level then ok item else find_level level items

unfoldable pub get_level : ℕ → Result KeyError PlatformLevel
unfolding find_level
get_level level = find_level level platform_levels
