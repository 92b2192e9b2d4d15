-- ===== src/Knowledge/Graph/Links.antt =====
-- The keys of the ends of relationships (agi_platform/knowledge_graph/core.py).
use agi_platform.Prelude.{
  String, ◌==◌, ◌+++◌, List, [], ◌∷◌, ◌++◌, true, Option, none, some, Dict, put, get-put, All, ◌≡◌,
  ◌⊎◌, refl, arith, Bool-cases, inl, inr,
}
use agi_platform.Security.Permissions.{TenantContext}
use agi_platform.Knowledge.Graph.{
  has, node_key, Node, Relation, KnowledgeGraph, new_relation, upsert_entity, relate,
}

module _ (Json : Type 0) where
  -- The keys "tenant:source" and "tenant:target" of the relationship are keys of nodes.
  abbrev pub Linked : Dict (Node Json) → Relation Json → Type 0
  Linked nodes e =
      (has nodes (e.tenant_id +++ ":" +++ e.source) ≡ true)
      × (has nodes (e.tenant_id +++ ":" +++ e.target) ≡ true)

  -- The calls that change a graph.
  pub data Op : Type 0 where
    entity : Option TenantContext → String → List String → Option (Dict Json) → Op
    relation : Option TenantContext → String → String → String → Option (Dict Json) → Op

  unfoldable pub step : KnowledgeGraph Json → Op → KnowledgeGraph Json
  step g (entity context id labels properties) =
      (upsert_entity Json g context id labels properties).0
  step g (relation context source target relationship properties) =
      (relate Json g context source target relationship properties).0

  unfoldable pub run : KnowledgeGraph Json → List Op → KnowledgeGraph Json
  run g [] = g
  run g (op ∷ ops) = run (step g op) ops

  has-put :
      (d : Dict (Node Json)) (k j : String) (v : Node Json)
      → has d j ≡ true
      → has (put d k v) j ≡ true
  has-put d k j v h =
      rw (get-put d k j v, has)
        (elim (Bool-cases (k == j)) [ inl same ↦ rw same refl | inr other ↦ rw other h ])

  All-Linked-put :
      (d : Dict (Node Json)) (k : String) (v : Node Json) (es : List (Relation Json))
      → All (Linked d) es
      → All (Linked (put d k v)) es
  All-Linked-put d k v [] a = tt
  All-Linked-put d k v (e ∷ es) a =
      ((has-put d k _ v a.0.0, has-put d k _ v a.0.1), All-Linked-put d k v es a.1)

  All-append :
      (P : Relation Json → Type 0) (es : List (Relation Json)) (e : Relation Json)
      → All P es
      → P e
      → All P (es ++ e ∷ [])
  All-append P [] e a h = (h, tt)
  All-append P (x ∷ es) e a h = (a.0, All-append P es e a.1 h)

  -- A call of `relate` leaves the graph as it was, or adds an edge whose ends are there.
  relate-cases :
      (g : KnowledgeGraph Json) (c : TenantContext) (source target relationship : String)
      (properties : Option (Dict Json))
      → ((relate Json g (some c) source target relationship properties).0 ≡ g)
        ⊎ ((e : Relation Json) × ((relate Json g (some c) source target relationship properties).0
              ≡ record g { edges = g.edges ++ e ∷ [] })
            × Linked g.nodes e)
  unfolding relate new_relation node_key
  relate-cases g c source target relationship properties =
      elim (Bool-cases (has g.nodes (node_key c.tenant_id source))) [
        | inr absent ↦ inl (ground arith)
        | inl from ↦ elim (Bool-cases (has g.nodes (node_key c.tenant_id target))) [
          | inr absent ↦ inl (ground arith)
          | inl to ↦ inr (
            new_relation Json c source target relationship properties,
            rw (from, to) refl,
            (from, to),
          )
        ]
      ]

  All-Linked-step :
      (g : KnowledgeGraph Json) (op : Op)
      → All (Linked g.nodes) g.edges
      → All (Linked (step g op).nodes) (step g op).edges
  unfolding step upsert_entity
  All-Linked-step g (entity none id labels properties) a = a
  All-Linked-step g (entity (some c) id labels properties) a = All-Linked-put g.nodes _ _ g.edges a
  All-Linked-step g (relation none source target relationship properties) a = unfold relate in a
  All-Linked-step g (relation (some c) source target relationship properties) a =
      elim (relate-cases g c source target relationship properties) [
        | inl same ↦ rw same a
        | inr (e, after, both) ↦ rw after (All-append (Linked g.nodes) g.edges e a both)
      ]

  All-Linked-run :
      (g : KnowledgeGraph Json) (ops : List Op)
      → All (Linked g.nodes) g.edges
      → All (Linked (run g ops).nodes) (run g ops).edges
  unfolding run
  All-Linked-run g [] a = a
  All-Linked-run g (op ∷ ops) a = All-Linked-run (step g op) ops (All-Linked-step g op a)

  abbrev pub empty_graph : KnowledgeGraph Json
  empty_graph = record { nodes = []; edges = [] }

  -- In every graph that calls of `upsert_entity` and `relate` make from the empty one, in any order,
  -- failed calls among them, the texts "tenant:source" and "tenant:target" of each relationship, made of
  -- its own tenant id and entity ids, are keys under which a node stands.
  pub Linked-run :
      (ops : List Op) → All (Linked (run empty_graph ops).nodes) (run empty_graph ops).edges
  Linked-run ops = All-Linked-run empty_graph ops tt
