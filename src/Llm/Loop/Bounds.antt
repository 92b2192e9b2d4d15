-- ===== src/Llm/Loop/Bounds.antt =====
-- How many requests a call of `complete` sends at most (agi_platform/llm/core.py).
use native.Mathlib.Nat.{mul-suc, mul-le-mul_left}
use agi_platform.Prelude.{
  ℕ, zero, suc, ◌+◌, ◌*◌, ◌≤◌, String, List, [], ◌∷◌, ◌++◌, length, Bool, Option, Result,
  Result-cases, ◌>>=◌, ok, raise, ◌≡◌, refl, ◌∙◌, inl, inr, arith,
}
use agi_platform.Llm.Json.{Json}
use agi_platform.Llm.Providers.{Provider}
use agi_platform.Llm.Adapter.{chat_post}
use agi_platform.Llm.Policies.{Floats, Thrown}
use agi_platform.Llm.Gateway.{
  Network, Completion, LlmGateway, chosen_model, record_failure, charge, completion_of,
  candidate_providers,
}
use agi_platform.Llm.Loop.{
  Verdict, answered, exhausted, threw, Progress, Next, stops, retries, after_answer, after_error,
  proceed, attempts, ask, after_provider, ask_all, admitted, complete,
}
use agi_platform.Llm.Gateway.Answers.{completion_of_inv}
use agi_platform.Llm.Gateway.Candidates.Chosen.{candidate_providers_lem}
use agi_platform.Llm.Loop.Invariants.{Ends_same, ask-Ends}

length-append : {A : Type 0} → (xs ys : List A) → length (xs ++ ys) ≡ length xs + length ys
length-append [] ys = omega arith
length-append (x ∷ xs) ys = ground (arith, length-append xs ys)

module _ (floats : Floats) (network : Network) where
  proceed-length :
      (name : String) (errors : ℕ) (next : Next floats network) (n : ℕ)
      (more : network.World → LlmGateway floats network → Progress floats network)
      → ((w : network.World) (g : LlmGateway floats network) → length (more w g).calls ≤ n)
      → length (proceed floats network name errors next more).calls ≤ n + 1
  unfolding proceed
  proceed-length name errors (stops w g verdict) n more h = omega arith
  proceed-length name errors (retries w g) n more h = omega (arith, h w g)

  after_answer-length :
      (p : Provider) (w : network.World) (g : LlmGateway floats network) (attempt errors : ℕ)
      (r : Result Thrown (LlmGateway floats network × Completion floats network)) (n : ℕ)
      (more : network.World → LlmGateway floats network → Progress floats network)
      → ((w : network.World) (g : LlmGateway floats network) → length (more w g).calls ≤ n)
      → length (after_answer floats network p w g attempt errors r more).calls ≤ n + 1
  unfolding after_answer
  after_answer-length p w g attempt errors (ok (g', c)) n more h = omega arith
  after_answer-length p w g attempt errors (raise e) n more h =
      proceed-length p.name (errors + 1) (after_error floats network w g p.name attempt e) n more h

  record_failure-routing :
      (w : network.World) (g g' : LlmGateway floats network) (name : String)
      → record_failure floats network w g name ≡ ok g'
      → g'.routing_policy ≡ g.routing_policy
  unfolding record_failure
  record_failure-routing w g g' name h = ground (arith, h)

  module _ (message : String) (stream : Bool) (tenant_id request_id : String) where
    attempts-length :
        (p : Provider) (model : String) (left attempt : ℕ) (w : network.World)
        (g : LlmGateway floats network) (errors : ℕ)
        → length
            (attempts floats network message stream tenant_id request_id p model left attempt w g
              errors).calls
          ≤ left
    unfolding attempts
    attempts-length p model zero attempt w g errors = omega arith
    attempts-length p model (suc left) attempt w g errors =
        let sent = network.post w (chat_post network.getenv p model message stream) in
        let few =
          after_answer-length p sent.0 g attempt errors
            (sent.1
              >>= completion_of floats network message stream tenant_id request_id g p model errors)
            left
            (λ w' g'.
              attempts floats network message stream tenant_id request_id p model left (attempt + 1)
                w' g' (errors + 1))
            (λ w' g'. attempts-length p model left (attempt + 1) w' g' (errors + 1)) in
        omega (arith, few)

    ask-length :
        (p : Provider) (model : Result Thrown String) (w : network.World)
        (g : LlmGateway floats network) (errors : ℕ)
        → length (ask floats network message stream tenant_id request_id p model w g errors).calls
          ≤ g.routing_policy.max_retries + 1
    unfolding ask
    ask-length p (raise e) w g errors = omega arith
    ask-length p (ok model) w g errors =
        attempts-length p model (g.routing_policy.max_retries + 1) 0 w g errors

    completion_of-routing :
        (g g' : LlmGateway floats network) (p : Provider) (model : String) (errors : ℕ)
        (body : Json) (c : Completion floats network)
        → completion_of floats network message stream tenant_id request_id g p model errors body
          ≡ ok (g', c)
        → g'.routing_policy ≡ g.routing_policy
    unfolding charge
    completion_of-routing g g' p model errors body c h =
        let (content, usage, made) =
          completion_of_inv floats network message stream tenant_id request_id g g' p model errors
            body c h in
        ground (arith, made)

    ask-routing :
        (p : Provider) (model : Result Thrown String) (w : network.World)
        (g : LlmGateway floats network) (errors : ℕ)
        → (ask floats network message stream tenant_id request_id p model w g
            errors).gateway.routing_policy
          ≡ g.routing_policy
    ask-routing p model w g errors =
        let done = ask floats network message stream tenant_id request_id p model w g errors in
        Ends_same floats network message stream tenant_id request_id same (λ k c. same k) fails
          answers (λ k c h. h) done.verdict done.gateway
          (ask-Ends floats network message stream tenant_id request_id same (λ k c. same k) fails
            answers p model w g errors refl)
      where
        same : LlmGateway floats network → Type 0
        same k = k.routing_policy ≡ g.routing_policy

        fails :
            (w : network.World) (k k' : LlmGateway floats network) (name : String)
            → record_failure floats network w k name ≡ ok k'
            → same k
            → same k'
        fails w k k' name e h = record_failure-routing w k k' name e ∙ h

        answers :
            (k k' : LlmGateway floats network) (p : Provider) (model : String) (errors : ℕ)
            (body : Json) (c : Completion floats network)
            → completion_of floats network message stream tenant_id request_id k p model errors body
              ≡ ok (k', c)
            → same k
            → same k'
        answers k k' p model errors body c e h =
            completion_of-routing k k' p model errors body c e ∙ h

    after_provider-length :
        (v : Verdict floats network) (done : Progress floats network) (n m : ℕ)
        (more : network.World → LlmGateway floats network → ℕ → Progress floats network)
        → length done.calls ≤ n
        → length (more done.world done.gateway done.errors).calls ≤ m
        → length
            (after_provider floats network message stream tenant_id request_id v done more).calls
          ≤ m + n
    unfolding after_provider
    after_provider-length (answered c) done n m more few fewer = omega (arith, few)
    after_provider-length exhausted done n m more few fewer = omega (
      arith,
      few,
      fewer,
      length-append done.calls (more done.world done.gateway done.errors).calls,
    )
    after_provider-length (threw e) done n m more few fewer = omega (arith, few)

    ask_all-length :
        (ps : List Provider) (model : Option String) (w : network.World)
        (g : LlmGateway floats network) (errors n : ℕ)
        → n ≡ g.routing_policy.max_retries + 1
        → length
            (ask_all floats network message stream tenant_id request_id ps model w g errors).calls
          ≤ n * length ps
    unfolding ask_all
    ask_all-length [] model w g errors n same = omega arith
    ask_all-length (p ∷ ps) model w g errors n same =
        let done =
          ask floats network message stream tenant_id request_id p (chosen_model model p) w g
            errors in
        let routing = ask-routing p (chosen_model model p) w g errors in
        let few : length done.calls ≤ n =
          rw same (ask-length p (chosen_model model p) w g errors) in
        let unchanged : n ≡ done.gateway.routing_policy.max_retries + 1 = rw routing same in
        let rest = ask_all-length ps model done.world done.gateway done.errors n unchanged in
        let sum =
          after_provider-length done.verdict done n (n * length ps)
            (λ w' g' errors'.
              ask_all floats network message stream tenant_id request_id ps model w' g' errors')
            few rest in
        rw (mul-suc n (length ps)) sum

    admitted_inv :
        (w : network.World) (g : LlmGateway floats network) (model : Option String)
        (ps : List Provider)
        → admitted floats network message stream tenant_id request_id w g model ≡ ok ps
        → candidate_providers floats network w g model ≡ ok ps
    unfolding admitted
    admitted_inv w g model ps h = ground (arith, h)

    -- A call sends no more requests than one and the retries for each provider.
    pub complete-length :
        (w : network.World) (g : LlmGateway floats network) (model : Option String)
        → length (complete floats network message stream tenant_id request_id w g model).calls
          ≤ (g.routing_policy.max_retries + 1) * length g.providers
    unfolding complete
    complete-length w g model =
        elim (Result-cases
          (admitted floats network message stream tenant_id request_id w g model)) [
            | inr (e, no_way) ↦ rw (no_way, complete) (omega arith)
            | inl (ps, way) ↦
                let candidates =
                  candidate_providers_lem floats network w g model ps
                    (admitted_inv w g model ps way) in
                let few = ask_all-length ps model w g 0 (g.routing_policy.max_retries + 1) refl in
                let fewer = mul-le-mul_left (g.routing_policy.max_retries + 1) candidates.2 in
                rw (way, complete) (omega (arith, few, fewer))
          ]
