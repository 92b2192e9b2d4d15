-- ===== src/Api/Endpoints.antt =====
-- The handlers of api/main.py that work for a tenant, behind the middleware: memories, the guardian and the
-- graph. The rate limiter in front, which only refuses requests, is left out here. What a call draws from
-- the clock and from `new_id` comes with it.
pub mod Effects
pub mod Bodies
pub mod Authority
use agi_platform.Prelude.{
  ℕ, String, ◌==◌, List, [], ◌∷◌, Bool, true, false, not, ◌&&◌, Option, none, some, leb, Dict,
  Result, or_raise, ok, raise, if◌then◌else◌,
}
use agi_platform.Security.Errors.{
  PlatformError, ErrorClass, authorization, not_found, default_message,
}
use agi_platform.Security.Permissions.{TenantContext}
use agi_platform.Security.Keys.{ApiKeyRecord, text_or, Headers}
use agi_platform.Memory.Values.{Values, MemoryRecord}
use agi_platform.Memory.Tables.{Schema, Db}
use agi_platform.Memory.Layer
use agi_platform.Memory.Search.{Ranked, Consolidation}
use agi_platform.Knowledge.Graph.{
  GraphError, permission_error, key_error, Node, Relation, KnowledgeGraph, upsert_entity, relate,
  search_graph,
}
use agi_platform.Guardian.{Ratios, Review, AuditEntry}
use agi_platform.Services.{PlatformService, MemoryRequest, store_memory, validate_memory}
use agi_platform.Api.Controls.{Request, RequestState, Response, admit}

-- How a handler fails: with an exception of the platform, with a body that its model refuses, or with an
-- exception that nothing handles.
pub data Failure : Type 0 where
  platform_error : PlatformError → Failure
  invalid_body : Failure
  unhandled : Failure

unfoldable pub failed : ErrorClass → Failure
failed class = platform_error (record { class = class; safe_message = default_message class })

-- `tenant_context(request)`
unfoldable pub tenant_context : RequestState → Result Failure TenantContext
unfolding failed
tenant_context state = or_raise (failed authorization) state.tenant_context

pub record QueryRequest : Type 0 where
  pub query : String
  pub limit : ℕ

-- What a call answers, with what fails on the way turned into a failure.
abbrev pub answering :
    {X E A B : Type 0} → (E → Failure) → (A → B) → X × Result E A → X × Result Failure B
answering fail answer (x, ok a) = (x, ok (answer a))
answering fail answer (x, raise e) = (x, raise (fail e))

-- `except KeyError`
unfoldable pub graph_failure : GraphError → Failure
unfolding failed
graph_failure permission_error = unhandled
graph_failure key_error = failed not_found

module _ (v : Values) where
  pub record EntityRequest : Type 0 where
    pub entity_id : String
    pub labels : List String
    pub properties : Dict v.Json

  pub record RelationshipRequest : Type 0 where
    pub source : String
    pub target : String
    pub relationship : String
    pub properties : Dict v.Json

  module _ (schema : Schema v) where
    -- A call of an endpoint, with its body.
    pub data Call : Type 0 where
      memory_store : MemoryRequest v schema → Call
      memory_search : QueryRequest → Call
      memory_retrieve : QueryRequest → Call
      memory_consolidate : Call
      guardian_validate : MemoryRequest v schema → Call
      graph_entity : EntityRequest → Call
      graph_relationship : RelationshipRequest → Call
      graph_search : QueryRequest → Call

    pub data Answer : Type 0 where
      memory : MemoryRecord v.Float v.Json → Answer
      memories : List (Ranked v.Float v.Json) → Answer
      summary : Consolidation v → Answer
      reviewed : Review → Answer
      node : Node v.Json → Answer
      relation : Relation v.Json → Answer
      subgraph : List (Node v.Json) × List (Relation v.Json) → Answer

    -- The path of the decorator `@app.post`.
    unfoldable pub path_of : Call → String
    path_of (memory_store r) = "/memory/store"
    path_of (memory_search r) = "/memory/search"
    path_of (memory_retrieve r) = "/memory/retrieve"
    path_of memory_consolidate = "/memory/consolidate"
    path_of (guardian_validate r) = "/guardian/validate"
    path_of (graph_entity r) = "/graph/entities"
    path_of (graph_relationship r) = "/graph/relationships"
    path_of (graph_search r) = "/graph/search"

    abbrev is_valid_query : QueryRequest → Bool
    is_valid_query r = not (r.query == "") && leb 1 r.limit && leb r.limit 50

    abbrev has_labels : List String → Bool
    has_labels [] = false
    has_labels (_ ∷ _) = true

    -- The constraints of the models of requests.
    unfoldable pub is_valid : Call → Bool
    is_valid (memory_store r) = not (r.content == "")
    is_valid (memory_search r) = is_valid_query r
    is_valid (memory_retrieve r) = is_valid_query r
    is_valid memory_consolidate = true
    is_valid (guardian_validate r) = not (r.content == "")
    is_valid (graph_entity r) = not (r.entity_id == "") && has_labels r.labels
    is_valid (graph_relationship r) =
        not (r.source == "") && not (r.target == "") && not (r.relationship == "")
    is_valid (graph_search r) = is_valid_query r

    pub record Drawn : Type 0 where
      pub now : ℕ
      pub evidence_id : String
      pub audit_id : String

    -- A call of the graph leaves the rest of the service.
    abbrev in_graph :
        PlatformService v schema
        → KnowledgeGraph v.Json × Result Failure Answer
        → PlatformService v schema × Result Failure Answer
    in_graph s (graph, result) = (record s { graph = graph }, result)

    module _ (ratios : Ratios) (lower : String → String) (qdrant_available : Bool) where
      -- The body of a handler.
      unfoldable pub work :
          PlatformService v schema
          → Call
          → TenantContext
          → Drawn
          → PlatformService v schema × Result Failure Answer
      unfolding graph_failure
      work s (memory_store r) context d =
          answering (λ e. unhandled) memory
            (store_memory v schema qdrant_available s r context d.now d.evidence_id d.audit_id)
      work s (memory_search r) context d =
          answering (λ e. unhandled) memories
            (s, Layer.search v schema s.memory r.query r.limit (some context))
      work s (memory_retrieve r) context d =
          answering (λ e. unhandled) memories
            (s, Layer.search v schema s.memory r.query r.limit (some context))
      work s memory_consolidate context d =
          answering (λ e. unhandled) summary (s, Layer.consolidate v schema s.memory (some context))
      work s (guardian_validate r) context d =
          answering (λ e. unhandled) reviewed
            (validate_memory v schema ratios qdrant_available s r context d.now d.evidence_id
              d.audit_id)
      work s (graph_entity r) context d = in_graph s (
          answering (λ e. unhandled) node
            (upsert_entity v.Json s.graph (some context) r.entity_id r.labels (some r.properties)))
      work s (graph_relationship r) context d = in_graph s (
          answering graph_failure relation (
            relate v.Json s.graph (some context) r.source r.target r.relationship
              (some r.properties)))
      work s (graph_search r) context d =
          answering (λ e. unhandled) subgraph
            (s, search_graph v.Json lower s.graph (some context) r.query)

      -- A handler: its dependency on the tenant comes first, then its body.
      unfoldable pub handle :
          PlatformService v schema
          → Call
          → Result Failure TenantContext
          → Drawn
          → PlatformService v schema × Result Failure Answer
      unfolding work is_valid
      handle s call (raise e) d = (s, raise e)
      handle s call (ok context) d =
          if is_valid call then work s call context d else (s, raise invalid_body)

      -- A call as it comes in.
      pub record HttpCall : Type 0 where
        pub call : Call
        pub client_host : Option String
        pub x_request_id : Option String
        pub headers : Headers
        pub x_approval_id : Option String
        pub fresh_id : String
        pub arrived : ℕ
        pub drawn : Drawn

      unfoldable pub request_of : HttpCall → Request
      unfolding path_of
      request_of c = record {
        method = "POST";
        path = path_of c.call;
        client_host = c.client_host;
        x_request_id = c.x_request_id;
        headers = c.headers;
        x_approval_id = c.x_approval_id;
      }

      abbrev pub id_of : HttpCall → String
      id_of c = text_or c.x_request_id c.fresh_id

      -- What the middleware refuses, or the handler makes of what it lets through.
      unfoldable pub behind :
          PlatformService v schema
          → HttpCall
          → Result Response RequestState
          → PlatformService v schema × Result Response (Result Failure Answer)
      unfolding handle tenant_context
      behind s c (raise refusal) = (s, raise refusal)
      behind s c (ok state) =
          let (s', result) = handle s c.call (tenant_context state) c.drawn in (s', ok result)

      module _ (hash : String → String) (api_keys : Dict ApiKeyRecord) where
        unfoldable pub serve :
            PlatformService v schema
            → HttpCall
            → PlatformService v schema × Result Response (Result Failure Answer)
        unfolding behind request_of
        serve s c = behind s c (admit hash api_keys (request_of c) (id_of c) c.arrived).0

        unfoldable pub serve_all :
            PlatformService v schema → List HttpCall → PlatformService v schema
        unfolding serve
        serve_all s [] = s
        serve_all s (c ∷ cs) = serve_all (serve s c).0 cs
