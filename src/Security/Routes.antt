-- ===== src/Security/Routes.antt =====
-- Which permission a route needs, and which paths are public (agi_platform/security.py).
pub mod Guarded
use agi_platform.Prelude.{
  String, ◌==◌, List, [], ◌∷◌, Bool, ◌&&◌, ◌||◌, Option, none, some, contains, starts_with,
  if◌then◌else◌,
}

pub record RoutePermission : Type 0 where
  pub method : String
  pub path : String
  pub permission : String

abbrev post : String → String → RoutePermission
post path permission = record { method = "POST"; path = path; permission = permission }

abbrev pub permission_by_route : List RoutePermission
permission_by_route =
    post "/memory/store" "memory.write"
    ∷ post "/memory/search" "memory.read"
    ∷ post "/memory/retrieve" "memory.read"
    ∷ post "/memory/consolidate" "memory.write"
    ∷ post "/guardian/validate" "memory.write"
    ∷ post "/github/repositories" "github.index"
    ∷ post "/sandbox/execute" "sandbox.execute"
    ∷ post "/graph/entities" "graph.write"
    ∷ post "/graph/relationships" "graph.write"
    ∷ post "/graph/search" "graph.read"
    ∷ post "/orchestrate" "workflow.start"
    ∷ post "/governance/proposals" "governance.propose"
    ∷ post "/governance/reviews" "governance.approve"
    ∷ post "/evolution/evaluate" "evolution.propose"
    ∷ post "/evolution/proposals" "evolution.propose"
    ∷ []

abbrev pub dynamic_prefix_permissions : List RoutePermission
dynamic_prefix_permissions =
    record { method = "GET"; path = "/github/repositories/"; permission = "github.read" }
    ∷ post "/orchestrate/" "workflow.start"
    ∷ []

-- The entry of the table for `(method, path)`.
unfoldable pub exact_permission : List RoutePermission → String → String → Option String
exact_permission [] method path = none
exact_permission (r ∷ rs) method path =
    if r.path == path && r.method == method
    then some r.permission
    else exact_permission rs method path

-- The first entry whose method is the request's and whose path begins the request's.
unfoldable pub prefix_permission : List RoutePermission → String → String → Option String
prefix_permission [] method path = none
prefix_permission (r ∷ rs) method path =
    if starts_with path r.path && method == r.method
    then some r.permission
    else prefix_permission rs method path

unfoldable pub route_permission : String → String → Option String
route_permission method path = elim (exact_permission permission_by_route method path) [
  | some permission ↦ some permission
  | none ↦ prefix_permission dynamic_prefix_permissions method path
]

abbrev pub public_paths : List String
public_paths =
    "/" ∷ "/health" ∷ "/live" ∷ "/ready" ∷ "/metrics" ∷ "/security/policy" ∷ "/architecture/levels"
    ∷ "/architecture/readiness" ∷ "/architecture/competitive-advantages" ∷ "/tools"
    ∷ "/mcp/manifest" ∷ "/docs" ∷ "/openapi.json" ∷ "/redoc" ∷ []

unfoldable pub is_public_path : String → Bool
is_public_path path = contains path public_paths || starts_with path "/architecture/levels/"
