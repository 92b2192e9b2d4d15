-- ===== src/Knowledge/Graph.antt =====
-- `KnowledgeGraph` (agi_platform/knowledge_graph/core.py), the store of nodes and edges in memory.
-- `Json` stands for the values of a dictionary of any values, `lower` for `str.lower`.
pub mod Search
pub mod Links
use Prim.Native.String
use agi_platform.Prelude.{
  occurs, String, ◌+++◌, ◌==◌, List, [], ◌∷◌, ◌++◌, map, any, Bool, true, false, not, ◌&&◌, ◌||◌,
  Option, none, some, or_else, Result, ok, raise, Dict, get, put, values, contains, starts_with,
  if◌then◌else◌,
}
use agi_platform.Database.{select}
use agi_platform.Security.Permissions.{TenantContext}

pub data GraphError : Type 0 where
  permission_error key_error : GraphError

-- `f"{context.tenant_id}:{entity_id}"`
unfoldable pub node_key : String → String → String
node_key tenant entity = tenant +++ ":" +++ entity

abbrev pub has {ℓ} : {V : Type ℓ} → Dict V → String → Bool
has d k = elim (get d k) [ none ↦ false | some _ ↦ true ]

module _ (Json : Type 0) where
  pub record Node : Type 0 where
    pub id : String
    pub tenant_id : String
    pub labels : List String
    pub properties : Dict Json

  pub record Relation : Type 0 where
    pub tenant_id : String
    pub source : String
    pub target : String
    pub relationship : String
    pub properties : Dict Json

  pub record KnowledgeGraph : Type 0 where
    pub nodes : Dict Node
    pub edges : List Relation

  unfoldable pub new_node : TenantContext → String → List String → Option (Dict Json) → Node
  new_node context entity labels properties = record {
    id = entity;
    tenant_id = context.tenant_id;
    labels = labels;
    properties = or_else properties [];
  }

  unfoldable pub upsert_entity :
      KnowledgeGraph
      → Option TenantContext
      → String
      → List String
      → Option (Dict Json)
      → KnowledgeGraph × Result GraphError Node
  unfolding new_node
  upsert_entity g none entity labels properties = (g, raise permission_error)
  upsert_entity g (some context) entity labels properties =
      let node = new_node context entity labels properties in
      (record g { nodes = put g.nodes (node_key context.tenant_id entity) node }, ok node)

  unfoldable pub new_relation :
      TenantContext → String → String → String → Option (Dict Json) → Relation
  new_relation context source target relationship properties = record {
    tenant_id = context.tenant_id;
    source = source;
    target = target;
    relationship = relationship;
    properties = or_else properties [];
  }

  unfoldable pub relate :
      KnowledgeGraph
      → Option TenantContext
      → String
      → String
      → String
      → Option (Dict Json)
      → KnowledgeGraph × Result GraphError Relation
  unfolding new_relation
  relate g none source target relationship properties = (g, raise permission_error)
  relate g (some context) source target relationship properties =
      let edge = new_relation context source target relationship properties in
      if not (has g.nodes (node_key context.tenant_id source))
        || not (has g.nodes (node_key context.tenant_id target))
      then (g, raise key_error)
      else (record g { edges = g.edges ++ edge ∷ [] }, ok edge)

  module _ (lower : String → String) where
    -- The condition on the nodes of a search.
    unfoldable pub matches : String → String → Node → Bool
    matches tenant query n =
        n.tenant_id == tenant
        && (occurs (lower query) (lower n.id)
            || any (λ label. occurs (lower query) (lower label)) n.labels)

    -- The condition on its relationships.
    unfoldable pub touches : String → List String → Relation → Bool
    touches tenant node_ids e =
        e.tenant_id == tenant && (contains e.source node_ids || contains e.target node_ids)

    unfoldable pub search_graph :
        KnowledgeGraph
        → Option TenantContext
        → String
        → Result GraphError (List Node × List Relation)
    search_graph g none query = raise permission_error
    search_graph g (some context) query =
        let nodes = select (matches context.tenant_id query) (values g.nodes) in
        let node_ids = map (λ (n : Node). n.id) nodes in
        ok (nodes, select (touches context.tenant_id node_ids) g.edges)
