-- ===== src/Api/Endpoints/Bodies.antt =====
-- What each handler changes, and for whom (api/main.py).
use agi_platform.Prelude.{
  String, ◌==◌, List, [], ◌∷◌, ◌++◌, Bool, not, ◌||◌, Option, some, Dict, get, get-put,
  if◌then◌else◌, ◌≡◌, inl, inr, refl, sym, ap, subst, ◌∙◌, arith, Bool-cases,
}
use agi_platform.Security.Permissions.{TenantContext}
use agi_platform.Security.Routes.{route_permission, exact_permission}
use agi_platform.Memory.Values.{Values}
use agi_platform.Memory.Tables.{Schema}
use agi_platform.Memory.Layer
use agi_platform.Memory.Changes.Fresh.{Grown}
use agi_platform.Knowledge.Graph.{
  has, node_key, Node, Relation, KnowledgeGraph, new_node, new_relation, upsert_entity, relate,
  search_graph,
}
use agi_platform.Guardian.{Ratios}
use agi_platform.Services.{
  PlatformService, store_request, after_store, store_memory, after_candidate, validate_memory,
}
use agi_platform.Api.Endpoints.{
  unhandled, memory, reviewed, relation, subgraph, graph_failure, Call, memory_store, memory_search,
  memory_retrieve, memory_consolidate, guardian_validate, graph_entity, graph_relationship,
  graph_search, path_of, Drawn, work,
}
use agi_platform.Api.Endpoints.Effects.{
  answering-state, mem-append, Effect, grown-Effect, graph-Effect, same-Effect, after_store-parts,
  after_candidate-parts, store_request-Grown,
}

module _ (v : Values) (schema : Schema v) where
  put_node :
      (who : String → String → Type 0) (s : PlatformService v schema) (context : TenantContext)
      (entity : String) (labels : List String) (properties : Option (Dict v.Json))
      → who "graph.write" context.tenant_id
      → Effect v schema who s (record s {
        graph = (upsert_entity v.Json s.graph (some context) entity labels properties).0;
      })
  unfolding upsert_entity new_node
  put_node who s context entity labels properties may =
      graph-Effect v schema who s
        (upsert_entity v.Json s.graph (some context) entity labels properties).0
        (λ key n h.
          let at_key = node_key context.tenant_id entity in
          let new : Node v.Json = new_node v.Json context entity labels properties in
          let there : (if at_key == key then some new else get s.graph.nodes key) ≡ some n =
            sym (get-put s.graph.nodes at_key key new) ∙ h in
          elim (Bool-cases (at_key == key)) [
            | inr other ↦ inl (rw other at there)
            | inl here ↦
                let it : some new ≡ some n = rw here at there in
                let own : context.tenant_id ≡ n.tenant_id = ground (arith, it) in
                inr (subst (who "graph.write") own may)
          ])
        (λ e m. inl m)

  put_edge :
      (who : String → String → Type 0) (s : PlatformService v schema) (context : TenantContext)
      (source target relationship : String) (properties : Option (Dict v.Json))
      → who "graph.write" context.tenant_id
      → Effect v schema who s (record s {
        graph = (relate v.Json s.graph (some context) source target relationship properties).0;
      })
  unfolding relate new_relation
  put_edge who s context source target relationship properties may =
      let missing =
        not (has s.graph.nodes (node_key context.tenant_id source))
        || not (has s.graph.nodes (node_key context.tenant_id target)) in
      elim (Bool-cases missing) [
        | inl absent ↦ rw (absent, relate) (same-Effect v schema who s)
        | inr present ↦
            rw (present, relate)
              (graph-Effect v schema who s
                (record s.graph {
                  edges =
                      s.graph.edges
                      ++ (new_relation v.Json context source target relationship properties ∷ []);
                })
                (λ key n h. inl h)
                (λ e m.
                  elim (mem-append e
                    (new_relation v.Json context source target relationship properties)
                    s.graph.edges m) [
                      | inl before ↦ inl before
                      | inr new ↦ inr (
                          subst (who "graph.write")
                            (sym (ap (λ (e : Relation v.Json). e.tenant_id) new)) may)
                    ]))
      ]

  module _ (ratios : Ratios) (lower : String → String) (qdrant_available : Bool) where
    -- Someone for whom the route of the call needs a permission, in the tenant of its context.
    abbrev pub Needs : Call v schema → TenantContext → String → String → Type 0
    Needs call context action tenant =
        (route_permission "POST" (path_of v schema call) ≡ some action)
        × (context.tenant_id ≡ tenant)

    pub work-Effect :
        (s : PlatformService v schema) (call : Call v schema) (context : TenantContext)
        (d : Drawn v schema)
        → Effect v schema
            (Needs call context)
            s
            (work v schema ratios lower qdrant_available s call context d).0
    unfolding work path_of route_permission exact_permission store_memory validate_memory
        Layer.search Layer.consolidate upsert_entity
    work-Effect s (memory_store r) context d =
        let x =
          store_request v schema qdrant_available s.memory r context d.now d.evidence_id
            d.audit_id in
        let y = after_store v schema s x in
        let (m, g) = after_store-parts v schema s x in
        let needs = Needs (memory_store r) context in
        subst (Effect v schema needs s) (sym (answering-state (λ e. unhandled) memory y)) (
          grown-Effect v schema needs context.tenant_id s y.0
            (subst (Grown v schema context.tenant_id s.memory) (sym m)
              (store_request-Grown v schema qdrant_available s.memory r context d))
            g (refl, refl))
    work-Effect s (guardian_validate r) context d =
        let x =
          store_request v schema qdrant_available s.memory r context d.now d.evidence_id
            d.audit_id in
        let y = after_candidate v schema ratios s x in
        let (m, g) = after_candidate-parts v schema ratios s x in
        let needs = Needs (guardian_validate r) context in
        subst (Effect v schema needs s) (sym (answering-state (λ e. unhandled) reviewed y)) (
          grown-Effect v schema needs context.tenant_id s y.0
            (subst (Grown v schema context.tenant_id s.memory) (sym m)
              (store_request-Grown v schema qdrant_available s.memory r context d))
            g (refl, refl))
    work-Effect s (graph_entity r) context d =
        put_node (Needs (graph_entity r) context) s context r.entity_id r.labels (some r.properties)
          (refl, refl)
    work-Effect s (graph_relationship r) context d =
        let x =
          relate v.Json s.graph (some context) r.source r.target r.relationship
            (some r.properties) in
        let needs = Needs (graph_relationship r) context in
        subst (λ (g : KnowledgeGraph v.Json). Effect v schema needs s (record s { graph = g }))
          (sym (answering-state graph_failure relation x))
          (put_edge needs s context r.source r.target r.relationship (some r.properties)
            (refl, refl))
    work-Effect s (memory_search r) context d =
        same-Effect v schema (Needs (memory_search r) context) s
    work-Effect s (memory_retrieve r) context d =
        same-Effect v schema (Needs (memory_retrieve r) context) s
    work-Effect s memory_consolidate context d =
        same-Effect v schema (Needs memory_consolidate context) s
    work-Effect s (graph_search r) context d =
        let needs = Needs (graph_search r) context in
        subst (Effect v schema needs s)
          (sym (
            answering-state (λ e. unhandled) subgraph
              (s, search_graph v.Json lower s.graph (some context) r.query)))
          (same-Effect v schema needs s)
