-- ===== src/Lib.antt =====
-- Verification of the core of the AGI platform: its domain objects, its security controls, the
-- middleware of its API, the durable store, leases and engine of its workflows, its durable memory, its
-- outbound requests, its gateway to language models, its sandbox, its knowledge graph, its guardian
-- of memories, its governance, its self-improvement, its readiness and its registry of tools.
--
-- Parts, and how they stand to the code (paths from the repository's root):
--
--   Domain          agi_platform/domain.py. Domain/States has the enumerations and the tables of
--                   transitions, Domain/Entity the base entities, events and errors,
--                   Domain/Entities the entities without operations,
--                   Domain/Workflow and Domain/Task the two classes with `transition_to`. A method
--                   that mutates its object gives back the new object beside its result, and an
--                   exception is the `raise` of a result. Domain/Machine is the interface that
--                   both classes fill; Domain/Machine/History reasons on it once for both.
--   Security        agi_platform/security.py: Permissions, Policy (`PolicyEngine.authorize`), Keys
--                   (`parse_api_keys`, `authenticate_request`), Routes (`route_permission`,
--                   `is_public_path`), RateLimiter (the sliding window in memory),
--                   RedisRateLimiter, Lock (`RedisDistributedLock`), and Errors (`PlatformError` and
--                   its subclasses).
--   Api             api/main.py: Api/Controls is the middleware `production_controls`, which runs
--                   the Redis limiter, the authentication and the policy in front of every handler,
--                   and sets the headers of every response;
--                   Api/Handlers has the three exception handlers, Api/Endpoints the handlers of
--                   memories, guardian and graph behind the middleware, and Api/Shared those that
--                   take no tenant.
--   Database        The interface of a table behind a session of SQLAlchemy, and Database/ListTable,
--                   an instance of it for concrete runs (agi_platform/database.py).
--                   Database/Rows has the rows of tenants, memories and audit events.
--   Orchestration   agi_platform/orchestration.py: Documents and Tables have the data, Leases the
--                   leases of tasks, Store `upsert_workflow`, `get` and `list` of
--                   `WorkflowStateStore`, as transactions on the tables, Engine
--                   `plan`, `execute` and `recover` of `WorkflowEngine`.
--   Memory          agi_platform/memory/core.py: Values and Tables have what it stands on, Entries the
--                   rows that are written, Store, Revision and Search the operations `store`,
--                   `update`, `rollback`, `search` and `consolidate` of `DurableMemoryStore`, Layer the
--                   class `MemoryLayer`. Changes says what one call does to the rows, and History
--                   reasons on sequences of calls.
--   Outbound        agi_platform/outbound.py: Policy, Validation (`validate_outbound_url`) and Client
--                   (`SecureHTTPClient`).
--   Llm             agi_platform/llm/core.py: Providers and Policies have the data, Json the answers,
--                   Adapter the requests of `ProviderAdapter`, Extraction what is read of an
--                   answer, Gateway the state of `LLMGateway` with the choice of providers and the
--                   charging of a completion, Loop its `complete`, Embeddings its `embeddings`, Core
--                   the class `LLMCore`. `except` is a function of the error (`after_error`), and the loops
--                   give back the requests that they sent beside their result.
--   Sandbox         agi_platform/sandbox/core.py: `SandboxPolicy.validate` and `SandboxLab`.
--   Knowledge       agi_platform/knowledge_graph/core.py: Knowledge/Graph is `KnowledgeGraph`.
--   Tools           agi_platform/tool_registry.py: the contracts of tools and their registry.
--   Guardian        agi_platform/guardian/core.py: `MemoryGuardian`, whose `version`, `rollback` and
--                   `validate` are `record_version`, `restore` and `validate_candidate`.
--   Governance      agi_platform/governance/core.py: `ArchitectureGovernance`.
--   Evolution       agi_platform/evolution/core.py: `SelfImprovementEngine`.
--   Readiness       agi_platform/readiness.py, with its table of controls in Readiness/Controls and
--                   agi_platform/catalog.py in Readiness/Catalog.
--   Services        agi_platform/services.py: the two calls of `PlatformService` that combine the
--                   durable memory and the guardian.
--   Prelude         Numbers, lists, dictionaries and texts that the parts share; Tests has concrete
--                   runs.
--
-- Parameters of the model: SHA-256 (`hash`), the Redis client, the database engine, the handlers
-- behind the middleware (`call_next`), `str.upper`, `str.lower` and `str.split`, JSON values and
-- floats, the parsing of URLs and addresses, DNS, HTTP, `shlex.join` and the running of
-- processes. Nothing is assumed of the network that the gateway
-- to language models asks, nor of its floats. Clock readings and fresh identifiers are arguments of the calls that take them.
-- Numbers are natural numbers, as Python's integers do not overflow; the clock of the in-memory
-- limiter counts microseconds, and `now - t >= 60` is written as `t + 60 s <= now`. Most loops
-- of the modelled code run over a list and need no fuel; the loop over the attempts at a provider
-- recurs on the attempts that are left; the loop of outbound requests recurs on
-- the redirects that are left, and the loop of the lock runs over its turns, of which a theorem
-- says how many are enough; `str(n)` has fuel for n + 1 digits, and n has no more.
--
-- A set of texts is a list that only membership tests read. A dictionary keeps insertion order. The
-- workflow documents have the entries that the engine writes; a column that the platform neither
-- reads nor writes is left out of a row. A transaction that raises leaves the database as it was;
-- transactions run one after the other, but for Leases/Races, where two leases read before either
-- writes.
--
-- The numbers of an answer's JSON are natural ones, so that token counts that are negative, fractional
-- or infinite, for which `int` rounds or raises `OverflowError`, are left out; so are leases for a negative
-- number of seconds. Where the code compares or parses texts with functions that raise, so does the
-- model: `hmac.compare_digest` with `TypeError` for texts that are not ASCII, which the middleware
-- leaves to the handler of unhandled exceptions, `urlparse` and the port of its result with
-- `ValueError`.
--
-- Not modelled: research, code analysis, GitHub and Chinese hub with their handlers, the handlers that
-- only give back the state or the result of a component, logging, telemetry and configuration. The
-- similarity of texts and the imports of modules are parameters too.
mod Prelude
pub mod Domain
pub mod Database
pub mod Security
pub mod Api
pub mod Memory
pub mod Orchestration
pub mod Outbound
pub mod Sandbox
pub mod Llm
pub mod Knowledge
pub mod Tools
mod Tests
pub mod Guardian
pub mod Services
pub mod Governance
pub mod Readiness
pub mod Evolution
