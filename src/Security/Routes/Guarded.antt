-- ===== src/Security/Routes/Guarded.antt =====
-- A route that needs a permission is never public (agi_platform/security.py).
use agi_platform.Prelude.{
  String, ◌==◌, List, [], ◌∷◌, true, false, none, contains, starts_with, diverge,
  starts_with-diverge, eq-starts_with, ◌≡◌, refl, inl, inr, All, Bool-cases, subst, eq_iff, arith,
}
use agi_platform.Security.Routes.{
  RoutePermission, permission_by_route, dynamic_prefix_permissions, exact_permission,
  prefix_permission, route_permission, public_paths, is_public_path,
}

abbrev pub levels : String
levels = "/architecture/levels/"

-- Under a prefix that no path of the table has, the table says nothing.
exact_permission-prefix :
    (rs : List RoutePermission) (method path prefix : String)
    → All (λ r. starts_with r.path prefix ≡ false) rs
    → starts_with path prefix ≡ true
    → exact_permission rs method path ≡ none
unfolding exact_permission
exact_permission-prefix [] method path prefix h e = refl
exact_permission-prefix (r ∷ rs) method path prefix h e = ground (
  arith,
  eq-starts_with path prefix r.path h.0 e,
  exact_permission-prefix rs method path prefix h.1 e,
)

prefix_permission-prefix :
    (rs : List RoutePermission) (method path prefix : String)
    → All (λ r. diverge prefix r.path ≡ true) rs
    → starts_with path prefix ≡ true
    → prefix_permission rs method path ≡ none
unfolding prefix_permission
prefix_permission-prefix [] method path prefix h e = refl
prefix_permission-prefix (r ∷ rs) method path prefix h e = ground (
  arith,
  starts_with-diverge path prefix r.path h.0 e,
  prefix_permission-prefix rs method path prefix h.1 e,
)

-- What holds of every entry of a list of texts holds of what it contains.
of_contains :
    (P : String → Type 0) (x : String) (xs : List String) → All P xs → contains x xs ≡ true → P x
unfolding contains
of_contains P x [] h e = cc
of_contains P x (y ∷ ys) h e = elim (Bool-cases (y == x)) [
  | inl same ↦ subst P ((eq_iff y x).0 same) h.0
  | inr other ↦ of_contains P x ys h.1 (rw other at e)
]

public_unguarded :
    (method : String) → All (λ path. route_permission method path ≡ none) public_paths
unfolding route_permission exact_permission prefix_permission starts_with
public_unguarded method = search

levels_exact :
    (method path : String)
    → starts_with path levels ≡ true
    → exact_permission permission_by_route method path ≡ none
levels_exact method path under =
    exact_permission-prefix permission_by_route method path levels (unfold starts_with in search)
      under

levels_prefix :
    (method path : String)
    → starts_with path levels ≡ true
    → prefix_permission dynamic_prefix_permissions method path ≡ none
levels_prefix method path under =
    prefix_permission-prefix dynamic_prefix_permissions method path levels
      (unfold diverge in search) under

-- No public path needs a permission, for any method: each route that needs one is behind the
-- authentication.
route_permission-public :
    (method path : String) → is_public_path path ≡ true → route_permission method path ≡ none
unfolding is_public_path route_permission
route_permission-public method path h = elim (Bool-cases (contains path public_paths)) [
  | inl listed ↦
      of_contains (λ p. route_permission method p ≡ none) path public_paths
        (public_unguarded method) listed
  | inr not_listed ↦
      let under : starts_with path levels ≡ true = rw not_listed at h in
      rw (levels_exact method path under, route_permission) (levels_prefix method path under)
]
