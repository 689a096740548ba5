-- ===== src/Translator/Hostnames.antt =====
-- Hostnames of listeners and routes: isHostnameSubset, isAllowedByHostname and
-- getIntersectingHostnames of pkg/translator/routes.go.
--
-- The result of `sets.Set.UnsortedList` comes in no order: `order` stands for it.
pub mod Covers
pub mod Attached
mod Examples
use kube_agentic_networking.Common.{
  String, Bool, true, false, not, ◌&&◌, ◌||◌, Option, none, some, List, [], ◌∷◌, ◌++◌, ◌==◌,
  if◌then◌else◌, has_prefix, has_suffix, drop_one, any, is_empty,
}
use kube_agentic_networking.Api.{Listener, RouteObject, http_route, grpc_route, other_object}

unfoldable pub is_hostname_subset : String → String → Bool
unfolding has_prefix has_suffix
is_hostname_subset route_hostname listener_hostname =
    if route_hostname == listener_hostname
    then true
    else if has_prefix listener_hostname "*."
    then (let listener_suffix = drop_one listener_hostname in
        if has_prefix route_hostname "*."
        then has_suffix (drop_one route_hostname) listener_suffix
        else has_suffix route_hostname listener_suffix)
    else if has_prefix route_hostname "*."
    then (let route_suffix = drop_one route_hostname in
        let route_domain = drop_one route_suffix in
        listener_hostname == route_domain || has_suffix listener_hostname route_suffix)
    else false

-- `none` where the type has no hostnames.
abbrev pub route_hostnames : RouteObject → Option (List String)
route_hostnames (http_route r) = some r.hostnames
route_hostnames (grpc_route m hostnames) = some hostnames
route_hostnames (other_object m) = none

-- The hostname of a listener that has one: nil and "" count as none.
abbrev pub set_hostname : Option String → Option String
set_hostname none = none
set_hostname (some h) = if h == "" then none else some h

abbrev pub allowed_by : Option String → Option (List String) → Bool
allowed_by none hostnames = true
allowed_by (some listener_hostname) none = true
allowed_by (some listener_hostname) (some hostnames) =
    is_empty hostnames || any (λ h. is_hostname_subset h listener_hostname) hostnames

unfoldable pub is_allowed_by_hostname : Listener → RouteObject → Bool
unfolding is_hostname_subset
is_allowed_by_hostname listener route =
    allowed_by (set_hostname listener.hostname) (route_hostnames route)

-- intersection.Insert
abbrev pub insert_set : String → List String → List String
insert_set h set = if any (λ x. x == h) set then set else set ++ h ∷ []

-- What the loop inserts for a route's hostname that meets the listener's.
unfoldable pub most_restrictive : String → String → String
most_restrictive route_hostname listener_hostname =
    if has_prefix route_hostname "*" && not (has_prefix listener_hostname "*")
    then listener_hostname
    else route_hostname

unfoldable pub intersect : String → List String → List String → List String
unfolding is_hostname_subset most_restrictive
intersect listener_hostname intersection [] = intersection
intersect listener_hostname intersection (h ∷ rest) =
    intersect listener_hostname
      (if is_hostname_subset h listener_hostname
        then insert_set (most_restrictive h listener_hostname) intersection
        else intersection)
      rest

-- The three cases of `getIntersectingHostnames`.
abbrev pub intersecting : (List String → List String) → Option String → List String → List String
intersecting order none [] = "*" ∷ []
intersecting order none (h ∷ rest) = h ∷ rest
intersecting order (some listener_hostname) [] = listener_hostname ∷ []
intersecting order (some listener_hostname) (h ∷ rest) =
    order (intersect listener_hostname [] (h ∷ rest))

unfoldable pub get_intersecting_hostnames :
    (List String → List String) → Listener → List String → List String
unfolding intersect
get_intersecting_hostnames order listener hostnames =
    intersecting order (set_hostname listener.hostname) hostnames
