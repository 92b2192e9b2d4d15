-- ===== src/Llm.antt =====
-- The gateway to language models (agi_platform/llm/core.py).
pub mod Json
pub mod Providers
pub mod Policies
pub mod Adapter
pub mod Extraction
pub mod Gateway
pub mod Loop
pub mod Embeddings
pub mod Core
