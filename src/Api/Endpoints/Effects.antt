-- ===== src/Api/Endpoints/Effects.antt =====
-- What the body of a handler changes, and for whom (api/main.py).
use mathlib.Core.List.{Memᴰ}
use agi_platform.Prelude.{
  String, List, [], ◌∷◌, ◌++◌, Bool, some, get, Result, ok, raise, ◌≡◌, ◌⊎◌, inl, inr, refl, sym,
  ap, subst, ◌∙◌,
}
use agi_platform.Security.Permissions.{TenantContext}
use agi_platform.Database.Rows.{MemoryRow}
use agi_platform.Memory.Values.{Values, MemoryError, MemoryRecord}
use agi_platform.Memory.Tables.{Schema, Db}
use agi_platform.Memory.Layer
use agi_platform.Memory.Changes.Fresh.{Grown, store-Grown, Grown-found}
use agi_platform.Knowledge.Graph.{Node, Relation, KnowledgeGraph}
use agi_platform.Guardian.{Ratios}
use agi_platform.Services.{
  PlatformService, MemoryRequest, store_request, after_store, after_candidate,
}
use agi_platform.Api.Endpoints.{Failure, answering, Drawn}

pub answering-state :
    {X E A B : Type 0} (fail : E → Failure) (answer : A → B) (x : X × Result E A)
    → (answering fail answer x).0 ≡ x.0
answering-state fail answer (x, ok a) = refl
answering-state fail answer (x, raise e) = refl

pub mem-append :
    {A : Type 0} (x y : A) (xs : List A) → Memᴰ x (xs ++ (y ∷ [])) → Memᴰ x xs ⊎ (x ≡ y)
mem-append x y [] (Memᴰ.head e) = inr e
mem-append x y [] (Memᴰ.tail m) = elim m [ ]
mem-append x y (z ∷ xs) (Memᴰ.head e) = inl (Memᴰ.head e)
mem-append x y (z ∷ xs) (Memᴰ.tail m) = elim (mem-append x y xs m) [
  | inl before ↦ inl (Memᴰ.tail before)
  | inr e ↦ inr e
]

module _ (v : Values) (schema : Schema v) where
  -- Memories stay as they are; and a memory, a node or a relationship that comes is due to someone who may
  -- write memories, or the graph, for its tenant.
  pub record Effect (who : String → String → Type 0) (s s' : PlatformService v schema)
      : Type 0 where
    pub kept :
        (id : String) (r : MemoryRow v.Float v.Json)
        → schema.memories.find s.memory.memories id ≡ some r
        → schema.memories.find s'.memory.memories id ≡ some r
    pub memory_of :
        (id : String) (r : MemoryRow v.Float v.Json)
        → schema.memories.find s'.memory.memories id ≡ some r
        → (schema.memories.find s.memory.memories id ≡ some r) ⊎ who "memory.write" r.tenant_id
    pub node_of :
        (key : String) (n : Node v.Json)
        → get s'.graph.nodes key ≡ some n
        → (get s.graph.nodes key ≡ some n) ⊎ who "graph.write" n.tenant_id
    pub edge_of :
        (e : Relation v.Json)
        → Memᴰ e s'.graph.edges
        → Memᴰ e s.graph.edges ⊎ who "graph.write" e.tenant_id

  -- A change of the memories alone, of a tenant for which someone may write them.
  pub grown-Effect :
      (who : String → String → Type 0) (tenant : String) (s s' : PlatformService v schema)
      → Grown v schema tenant s.memory s'.memory
      → s'.graph ≡ s.graph
      → who "memory.write" tenant
      → Effect who s s'
  grown-Effect who tenant s s' grown same may = record {
    kept = λ id r. (Grown-found v schema tenant s.memory s'.memory grown id r).0;
    memory_of = λ id r h. elim ((Grown-found v schema tenant s.memory s'.memory grown id r).1 h) [
      | inl before ↦ inl before
      | inr own ↦ inr (subst (who "memory.write") (sym own) may)
    ];
    node_of = λ key n h. inl (ap (λ (g : KnowledgeGraph v.Json). get g.nodes key) (sym same) ∙ h);
    edge_of = λ e m. inl (subst (λ (g : KnowledgeGraph v.Json). Memᴰ e g.edges) same m);
  }

  -- A change of the graph alone.
  pub graph-Effect :
      (who : String → String → Type 0) (s : PlatformService v schema) (g : KnowledgeGraph v.Json)
      → ((key : String) (n : Node v.Json)
          → get g.nodes key ≡ some n
          → (get s.graph.nodes key ≡ some n) ⊎ who "graph.write" n.tenant_id)
      → ((e : Relation v.Json)
          → Memᴰ e g.edges
          → Memᴰ e s.graph.edges ⊎ who "graph.write" e.tenant_id)
      → Effect who s (record s { graph = g })
  graph-Effect who s g nodes edges = record {
    kept = λ id r h. h;
    memory_of = λ id r h. inl h;
    node_of = nodes;
    edge_of = edges;
  }

  pub same-Effect : (who : String → String → Type 0) (s : PlatformService v schema) → Effect who s s
  same-Effect who s = record {
    kept = λ id r h. h;
    memory_of = λ id r h. inl h;
    node_of = λ key n h. inl h;
    edge_of = λ e m. inl m;
  }

  pub weaken-Effect :
      (who may : String → String → Type 0) (s s' : PlatformService v schema)
      → ((action tenant : String) → who action tenant → may action tenant)
      → Effect who s s'
      → Effect may s s'
  weaken-Effect who may s s' f h = record {
    kept = h.kept;
    memory_of = λ id r e. elim (h.memory_of id r e) [
      | inl b ↦ inl b
      | inr w ↦ inr (f "memory.write" r.tenant_id w)
    ];
    node_of = λ key n e. elim (h.node_of key n e) [
      | inl b ↦ inl b
      | inr w ↦ inr (f "graph.write" n.tenant_id w)
    ];
    edge_of =
        λ x m. elim (h.edge_of x m) [ inl b ↦ inl b | inr w ↦ inr (f "graph.write" x.tenant_id w) ];
  }

  pub compose-Effect :
      (who : String → String → Type 0) (s s' s'' : PlatformService v schema)
      → Effect who s s'
      → Effect who s' s''
      → Effect who s s''
  compose-Effect who s s' s'' h h' = record {
    kept = λ id r e. h'.kept id r (h.kept id r e);
    memory_of = λ id r e. elim (h'.memory_of id r e) [ inl b ↦ h.memory_of id r b | inr w ↦ inr w ];
    node_of = λ key n e. elim (h'.node_of key n e) [ inl b ↦ h.node_of key n b | inr w ↦ inr w ];
    edge_of = λ x m. elim (h'.edge_of x m) [ inl b ↦ h.edge_of x b | inr w ↦ inr w ];
  }

  pub after_store-parts :
      (s : PlatformService v schema)
      (x : Db v schema × Result MemoryError (MemoryRecord v.Float v.Json))
      → ((after_store v schema s x).0.memory ≡ x.0) × ((after_store v schema s x).0.graph ≡ s.graph)
  unfolding after_store
  after_store-parts s (db, ok m) = (refl, refl)
  after_store-parts s (db, raise e) = (refl, refl)

  pub after_candidate-parts :
      (ratios : Ratios) (s : PlatformService v schema)
      (x : Db v schema × Result MemoryError (MemoryRecord v.Float v.Json))
      → ((after_candidate v schema ratios s x).0.memory ≡ x.0)
        × ((after_candidate v schema ratios s x).0.graph ≡ s.graph)
  unfolding after_candidate
  after_candidate-parts ratios s (db, ok m) = (refl, refl)
  after_candidate-parts ratios s (db, raise e) = (refl, refl)

  pub store_request-Grown :
      (qdrant_available : Bool) (db : Db v schema) (r : MemoryRequest v schema)
      (context : TenantContext) (d : Drawn v schema)
      → Grown v schema context.tenant_id db
          (store_request v schema qdrant_available db r context d.now d.evidence_id d.audit_id).0
  unfolding store_request Layer.store
  store_request-Grown qdrant_available db r context d =
      store-Grown v schema qdrant_available db context r.content r.memory_type (some r.metadata)
        d.now d.evidence_id d.audit_id
