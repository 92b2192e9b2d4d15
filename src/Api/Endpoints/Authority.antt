-- ===== src/Api/Endpoints/Authority.antt =====
-- Who may change what through the API: the middleware and the handlers together (api/main.py).
use mathlib.Core.List.{Memᴰ}
use agi_platform.Prelude.{
  String, List, [], ◌∷◌, Bool, none, some, Dict, Result-cases, ok, ◌≡◌, inl, inr, refl, Bool-cases,
}
use agi_platform.Security.Permissions.{Identity, TenantContext}
use agi_platform.Security.Policy.Decisions.{Permitted}
use agi_platform.Security.Keys.{ApiKeyRecord, authenticate_request}
use agi_platform.Memory.Values.{Values}
use agi_platform.Memory.Tables.{Schema}
use agi_platform.Guardian.{Ratios}
use agi_platform.Services.{PlatformService}
use agi_platform.Api.Controls.{RequestState, is_given, context_of, admit}
use agi_platform.Api.Controls.Admission.{WorksFor, admit-Cleared}
use agi_platform.Api.Endpoints.{
  tenant_context, is_valid, handle, HttpCall, request_of, id_of, behind, serve, serve_all,
}
use agi_platform.Api.Endpoints.Effects.{Effect, same-Effect, weaken-Effect, compose-Effect}
use agi_platform.Api.Endpoints.Bodies.{Needs, work-Effect}

module _ (v : Values) (schema : Schema v) (ratios : Ratios) (lower : String → String)
    (qdrant_available : Bool) (hash : String → String) (api_keys : Dict ApiKeyRecord) where
  abbrev Http : Type 0
  Http = HttpCall v schema ratios lower qdrant_available

  -- The call's key proves an identity of the tenant, to which the policy permits the action.
  pub record Authorized (c : Http) (action tenant : String) : Type 0 where
    pub identity : Identity
    pub proved : authenticate_request hash c.headers api_keys c.arrived ≡ ok (some identity)
    pub own : identity.tenant_id ≡ tenant
    pub permitted :
        Permitted identity
          (context_of identity (id_of v schema ratios lower qdrant_available c))
          action
          (some identity.tenant_id)
          (is_given c.x_approval_id)

  handle-Effect :
      (s : PlatformService v schema) (c : Http) (context : TenantContext)
      → Effect v schema
          (Needs v schema ratios lower qdrant_available c.call context)
          s
          (handle v schema ratios lower qdrant_available s c.call (ok context) c.drawn).0
  unfolding handle
  handle-Effect s c context =
      let needs = Needs v schema ratios lower qdrant_available c.call context in
      elim (Bool-cases (is_valid v schema c.call)) [
        | inl valid ↦
            rw valid (work-Effect v schema ratios lower qdrant_available s c.call context c.drawn)
        | inr invalid ↦ rw invalid (same-Effect v schema needs s)
      ]

  behind-Effect :
      (s : PlatformService v schema) (c : Http) (state : RequestState)
      → WorksFor hash api_keys
          (request_of v schema ratios lower qdrant_available c)
          (id_of v schema ratios lower qdrant_available c)
          c.arrived
          state
      → Effect v schema
          (Authorized c)
          s
          (behind v schema ratios lower qdrant_available s c (ok state)).0
  unfolding behind tenant_context request_of context_of
  behind-Effect s c state w =
      let rid = id_of v schema ratios lower qdrant_available c in
      let context = context_of w.identity rid in
      rw w.in_tenant (
        weaken-Effect v schema (Needs v schema ratios lower qdrant_available c.call context)
          (Authorized c) s
          (handle v schema ratios lower qdrant_available s c.call (ok context) c.drawn).0
          (λ action tenant n. record {
            identity = w.identity;
            proved = w.proved;
            own = n.1;
            permitted = w.permitted action n.0;
          })
          (handle-Effect s c context))

  nobody-Effect :
      (s : PlatformService v schema) (c : Http) (state : RequestState)
      → state.tenant_context ≡ none
      → Effect v schema
          (Authorized c)
          s
          (behind v schema ratios lower qdrant_available s c (ok state)).0
  unfolding behind tenant_context handle
  nobody-Effect s c state e = rw e (same-Effect v schema (Authorized c) s)

  serve-Effect :
      (s : PlatformService v schema) (c : Http)
      → Effect v schema
          (Authorized c)
          s
          (serve v schema ratios lower qdrant_available hash api_keys s c).0
  unfolding serve behind
  serve-Effect s c =
      let request = request_of v schema ratios lower qdrant_available c in
      let rid = id_of v schema ratios lower qdrant_available c in
      elim (Result-cases (admit hash api_keys request rid c.arrived).0) [
        | inr (refusal, refused) ↦
            rw (refused, serve, behind) (same-Effect v schema (Authorized c) s)
        | inl (state, cleared) ↦
            rw (cleared, serve)
              (elim (admit-Cleared hash api_keys request rid c.arrived state cleared) [
                | inl free ↦ nobody-Effect s c state free.1
                | inr (inl unkeyed) ↦ nobody-Effect s c state unkeyed.0
                | inr (inr w) ↦ behind-Effect s c state w
              ])
      ]

  -- Someone among the calls.
  abbrev pub ByACall : List Http → String → String → Type 0
  ByACall cs action tenant = (c : Http) × Memᴰ c cs × Authorized c action tenant

  -- Whatever calls of these endpoints come in, in any order, every memory that is there stays as it is; and
  -- every memory, node or relationship of the graph that was not there before is of a tenant for whom one of
  -- the calls had a key, whose identity the policy permits to write memories, or the graph.
  pub serve_all-Effect :
      (s : PlatformService v schema) (cs : List Http)
      → Effect v schema
          (ByACall cs)
          s
          (serve_all v schema ratios lower qdrant_available hash api_keys s cs)
  unfolding serve_all
  serve_all-Effect s [] = same-Effect v schema (ByACall []) s
  serve_all-Effect s (c ∷ cs) =
      let s₁ = (serve v schema ratios lower qdrant_available hash api_keys s c).0 in
      let s₂ = serve_all v schema ratios lower qdrant_available hash api_keys s₁ cs in
      compose-Effect v schema (ByACall (c ∷ cs)) s s₁ s₂
        (weaken-Effect v schema (Authorized c) (ByACall (c ∷ cs)) s s₁
          (λ action tenant w. (c, Memᴰ.head refl, w)) (serve-Effect s c))
        (weaken-Effect v schema (ByACall cs) (ByACall (c ∷ cs)) s₁ s₂
          (λ action tenant w. (w.0, Memᴰ.tail w.1, w.2)) (serve_all-Effect s₁ cs))
