-- ===== src/Knowledge.antt =====
-- agi_platform/knowledge_graph: entities and relationships of tenants.
pub mod Graph
