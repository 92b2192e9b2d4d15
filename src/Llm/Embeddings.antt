-- ===== src/Llm/Embeddings.antt =====
-- `LLMGateway.embeddings` (agi_platform/llm/core.py).
use agi_platform.Prelude.{String, List, [], ◌∷◌, Option, Result, ◌>>=◌, ok, raise}
use agi_platform.Llm.Providers.{Provider}
use agi_platform.Llm.Policies.{Floats, Thrown, index_error}
use agi_platform.Llm.Adapter.{embeddings_post}
use agi_platform.Llm.Extraction.{len_of, extract_embedding}
use agi_platform.Llm.Gateway.{Network, LlmGateway, chosen_model, Embedding, candidate_providers}

module _ (floats : Floats) (network : Network) where
  unfoldable pub first_provider : List Provider → Result Thrown Provider
  first_provider [] = raise index_error
  first_provider (p ∷ ps) = ok p

  -- The provider and the model that `embeddings` asks.
  unfoldable pub embedding_target :
      network.World → LlmGateway floats network → Option String → Result Thrown (Provider × String)
  unfolding candidate_providers chosen_model first_provider
  embedding_target w g model = do
    ps ← candidate_providers floats network w g model
    p ← first_provider ps
    m ← chosen_model model p
    ok (p, m)

  -- `embeddings`
  unfoldable pub embeddings :
      network.World
      → LlmGateway floats network
      → String
      → Option String
      → network.World × Result Thrown Embedding
  unfolding embedding_target embeddings_post extract_embedding len_of
  embeddings w g content model = elim (embedding_target w g model) [
    | raise e ↦ (w, raise e)
    | ok (p, m) ↦
        let sent = network.post w (embeddings_post network.getenv p m content) in
        (
          sent.0,
          (do
            body ← sent.1
            embedding ← extract_embedding body
            dimensions ← len_of embedding
            ok (record {
              provider = p.name;
              model = m;
              embedding = embedding;
              dimensions = dimensions;
            })),
        )
  ]
