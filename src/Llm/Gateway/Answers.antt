-- ===== src/Llm/Gateway/Answers.antt =====
-- What an answer must be for a completion (agi_platform/llm/core.py).
use agi_platform.Prelude.{ℕ, String, Bool, Result-cases, ok, inl, inr, ◌≡◌}
use agi_platform.Llm.Json.{Json}
use agi_platform.Llm.Providers.{Provider}
use agi_platform.Llm.Policies.{Floats}
use agi_platform.Llm.Extraction.{extract_chat_content, Usage, extract_usage}
use agi_platform.Llm.Gateway.{Network, Completion, LlmGateway, content_text, charge, completion_of}

module _ (floats : Floats) (network : Network) (message : String) (stream : Bool)
    (tenant_id request_id : String) where
  -- A completion comes of a content and a usage that are read from the answer.
  pub completion_of_inv :
      (g g' : LlmGateway floats network) (p : Provider) (model : String) (errors : ℕ) (body : Json)
      (c : Completion floats network)
      → completion_of floats network message stream tenant_id request_id g p model errors body
        ≡ ok (g', c)
      → (content : String) × (usage : Usage) × (charge floats network message stream tenant_id
            request_id g p model errors body content usage
          ≡ ok (g', c))
  unfolding completion_of
  completion_of_inv g g' p model errors body c h =
      elim (Result-cases (extract_chat_content p body)) [
        | inr (e, bad) ↦ let h₁ = rw bad at h in cc
        | inl (value, good) ↦
            let h₁ = rw good at h in
            elim (Result-cases (content_text floats network value)) [
              | inr (e, bad) ↦ let h₂ = rw bad at h₁ in cc
              | inl (content, good') ↦
                  let h₂ = rw good' at h₁ in
                  elim (Result-cases
                    (extract_usage network.split network.int_of_text body message content)) [
                      | inr (e, bad) ↦ let h₃ = rw bad at h₂ in cc
                      | inl (usage, good'') ↦ let h₃ = rw good'' at h₂ in (content, usage, h₃)
                    ]
            ]
      ]
