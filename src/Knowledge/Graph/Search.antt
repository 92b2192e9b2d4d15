-- ===== src/Knowledge/Graph/Search.antt =====
-- What a search finds (agi_platform/knowledge_graph/core.py).
use mathlib.Core.List.{Memᴰ}
use agi_platform.Prelude.{
  occurs, String, ◌==◌, List, [], ◌∷◌, map, Bool, true, Option, none, some, ok, Dict, put, values,
  contains, All, ◌≡◌, ◌⊎◌, refl, arith, eq_iff, eq_refl, Bool-cases, inl, inr,
}
use agi_platform.Database.{select}
use agi_platform.Database.Select.{mem-select}
use agi_platform.Security.Permissions.{TenantContext}
use agi_platform.Knowledge.Graph.{
  node_key, Node, Relation, KnowledgeGraph, new_node, upsert_entity, matches, touches, search_graph,
}

-- What all selected rows have, if the condition implies it.
All-select :
    {R : Type 0} (P : R → Type 0) (p : R → Bool) (rs : List R)
    → ((r : R) → p r ≡ true → P r)
    → All P (select p rs)
unfolding select
All-select P p [] h = tt
All-select P p (r ∷ rs) h = elim (Bool-cases (p r)) [
  | inl chosen ↦ rw chosen (h r chosen, All-select P p rs h)
  | inr passed ↦ rw passed (All-select P p rs h)
]

mem-values-put : {V : Type 0} (d : Dict V) (k : String) (v : V) → Memᴰ v (values (put d k v))
unfolding put
mem-values-put [] k v = Memᴰ.head refl
mem-values-put ((j, w) ∷ d) k v = elim (Bool-cases (j == k)) [
  | inl same ↦ rw same (Memᴰ.head refl)
  | inr other ↦ rw other (Memᴰ.tail (mem-values-put d k v))
]

module _ (Json : Type 0) (lower : String → String) where
  touches_own :
      (tenant : String) (ids : List String) (e : Relation Json)
      → touches Json lower tenant ids e ≡ true
      → (e.tenant_id ≡ tenant) × ((contains e.source ids ≡ true) ⊎ (contains e.target ids ≡ true))
  unfolding touches
  touches_own tenant ids e h = (ground (arith, eq_iff e.tenant_id tenant), ground arith)

  matches_own :
      (tenant query : String) (n : Node Json)
      → matches Json lower tenant query n ≡ true
      → n.tenant_id ≡ tenant
  unfolding matches
  matches_own tenant query n h = ground (arith, eq_iff n.tenant_id tenant)

  -- Whatever the graph holds, a search that succeeds was made in a tenant, and gives nodes and
  -- relationships of that tenant alone; each relationship starts or ends at the id of a node that it
  -- gives.
  search_graph-own :
      (g : KnowledgeGraph Json) (context : Option TenantContext) (query : String)
      (nodes : List (Node Json)) (edges : List (Relation Json))
      → search_graph Json lower g context query ≡ ok (nodes, edges)
      → (c : TenantContext) × (context ≡ some c)
        × All (λ (n : Node Json). n.tenant_id ≡ c.tenant_id) nodes
        × All
            (λ (e : Relation Json).
              (e.tenant_id ≡ c.tenant_id)
              × ((contains e.source (map (λ (n : Node Json). n.id) nodes) ≡ true)
                  ⊎ (contains e.target (map (λ (n : Node Json). n.id) nodes) ≡ true)))
            edges
  unfolding search_graph
  search_graph-own g none query nodes edges h = absurd cc
  search_graph-own g (some c) query nodes edges h =
      let found : select (matches Json lower c.tenant_id query) (values g.nodes) ≡ nodes = cc in
      let ids =
        map (λ (n : Node Json). n.id)
          (select (matches Json lower c.tenant_id query) (values g.nodes)) in
      let linked : select (touches Json lower c.tenant_id ids) g.edges ≡ edges = cc in
      (
        c,
        refl,
        rw (← found) (
            All-select _ (matches Json lower c.tenant_id query) (values g.nodes)
              (matches_own c.tenant_id query)),
        rw (← linked, ← found)
            (All-select _ (touches Json lower c.tenant_id ids) g.edges
              (touches_own c.tenant_id ids)),
      )

  -- An entity that is stored in a tenant is among the nodes that the tenant's searches then give, for
  -- each query whose lower-case text occurs in the lower-case id of the entity.
  search_graph-upsert_entity :
      (g g' : KnowledgeGraph Json) (c : TenantContext) (entity : String) (labels : List String)
      (properties : Option (Dict Json)) (node : Node Json) (query : String)
      → upsert_entity Json g (some c) entity labels properties ≡ (g', ok node)
      → occurs (lower query) (lower entity) ≡ true
      → (nodes : List (Node Json)) × (edges : List (Relation Json)) × (search_graph Json lower g'
            (some c)
            query
          ≡ ok (nodes, edges))
        × Memᴰ node nodes
  unfolding upsert_entity search_graph
  search_graph-upsert_entity g g' c entity labels properties node query h meets =
      let made : new_node Json c entity labels properties ≡ node = cc in
      let stored : record g {
        nodes =
            put g.nodes (node_key c.tenant_id entity) (new_node Json c entity labels properties);
      }
          ≡ g' =
        cc in
      (
        _,
        _,
        refl,
        rw (← stored, ← made)
            (mem-select (matches Json lower c.tenant_id query) _
              (new_node Json c entity labels properties)
              (mem-values-put g.nodes (node_key c.tenant_id entity)
                (new_node Json c entity labels properties))
              (unfold matches new_node in rw (eq_refl c.tenant_id, meets) refl)),
      )
