-- ===== src/Tests/Knowledge.antt =====
-- The theorems on the knowledge graph at concrete calls (agi_platform/knowledge_graph/core.py).
use agi_platform.Prelude.{
  occurs, String, List, [], ◌∷◌, true, none, some, ok, get, put, contains, starts_with, All, ◌≡◌,
  refl,
}
use agi_platform.Database.{select}
use agi_platform.Security.Permissions.{TenantContext}
use agi_platform.Knowledge.Graph.{
  node_key, Node, Relation, KnowledgeGraph, new_node, new_relation, upsert_entity, relate, matches,
  touches, search_graph,
}
use agi_platform.Knowledge.Graph.Links
use agi_platform.Knowledge.Graph.Links.{Op, entity, relation, run, empty_graph, Linked-run}

abbrev acme : TenantContext
acme = record {
  tenant_id = "acme";
  identity = record {
    subject = "ada";
    tenant_id = "acme";
    roles = [];
    permissions = [];
    key_id = "key-0";
    identity_type = "service_account";
  };
  request_id = "req-1";
}

-- The relationship to a node that is not there fails.
abbrev ops : List (Op String)
ops =
    entity (some acme) "api" ("service" ∷ []) none
    ∷ entity (some acme) "db" ("service" ∷ []) none
    ∷ relation (some acme) "api" "db" "USES" none
    ∷ relation (some acme) "api" "cache" "USES" none
    ∷ entity none "db" [] none
    ∷ []

abbrev graph : KnowledgeGraph String
graph = run String (empty_graph String) ops

Linked-run_example : All (Links.Linked String graph.nodes) graph.edges
Linked-run_example = Linked-run String ops

abbrev same : String → String
same s = s

abbrev api : Node String
api = record { id = "api"; tenant_id = "acme"; labels = "service" ∷ []; properties = [] }

abbrev uses : Relation String
uses = record {
  tenant_id = "acme";
  source = "api";
  target = "db";
  relationship = "USES";
  properties = [];
}

searches : search_graph String same graph (some acme) "ap" ≡ ok (api ∷ [], uses ∷ [])
unfolding search_graph run Links.step upsert_entity relate new_node new_relation node_key matches
    touches occurs starts_with contains select get put
searches = refl

abbrev stored : KnowledgeGraph String
stored = (upsert_entity String graph (some acme) "api" ("service" ∷ []) none).0

stores : upsert_entity String graph (some acme) "api" ("service" ∷ []) none ≡ (stored, ok api)
unfolding upsert_entity new_node
stores = refl

met : occurs "pi" "api" ≡ true
unfolding occurs starts_with
met = refl
