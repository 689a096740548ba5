-- ===== src/Translator/Snapshot.antt =====
-- The configuration of a Gateway: buildEnvoyResourcesForGateway of pkg/translator/translator.go.
--
-- The maps that the function fills are fields of a state `Work`, with the port's virtual hosts and filter
-- chains and the listener's count of routes, which are empty again when the next one begins. The orders in
-- which Go's maps are iterated are parameters. A nil dereference, which stops the program, is `none`.
pub mod Routing
pub mod Programming
pub mod Building
pub mod Fetched
pub mod Backed
pub mod Served
pub mod Closed
pub mod Chains
pub mod Plain
pub mod Checked
mod Examples
use kube_agentic_networking.Common.{
  ℕ, ◌+◌, String, Bool, true, false, Option, none, some, List, [], ◌∷◌, ◌++◌, ◌==◌, any,
  if◌then◌else◌, or_default, lookup, insert, string_eq, name_eq,
}
use kube_agentic_networking.Api.{Condition, Listener, Gateway, HttpRoute, RouteGroupKind}
use kube_agentic_networking.Translator.Env.{Translator}
use kube_agentic_networking.Translator.Envoy.{EnvoyRoute, VirtualHost, Cluster}
use kube_agentic_networking.Translator.Conditions.{ConditionOps}
use kube_agentic_networking.Translator.Attachment.{RouteParentStatus, validate_http_route}
use kube_agentic_networking.Translator.FilterChains.{FilterChain, Address}

-- What the function is given: the listers, the condition functions, sort.Slice and the orders of
-- iteration of its maps and of those of the functions that it calls.
pub record Context : Type 0 where
  pub translator : Translator
  pub ops : ConditionOps
  pub sort_slice : (EnvoyRoute → EnvoyRoute → Bool) → List EnvoyRoute → List EnvoyRoute
  pub order_accepted : List Listener → List Listener
  pub order_validated : List (ℕ × List Listener) → List (ℕ × List Listener)
  pub order_hostnames : List String → List String
  pub order_ports : List (ℕ × List Listener) → List (ℕ × List Listener)
  pub order_hosts : List (String × VirtualHost) → List (String × VirtualHost)
  pub order_clusters : List (String × Cluster) → List (String × Cluster)

pub record ListenerStatus : Type 0 where
  pub name : String
  pub supported_kinds : List RouteGroupKind
  pub attached_routes : ℕ
  pub conditions : List Condition

pub record RouteConfiguration : Type 0 where
  pub name : String
  pub virtual_hosts : List VirtualHost
  pub ignore_port_in_host_matching : Bool

-- A nil filter chain is `none`.
pub record EnvoyListener : Type 0 where
  pub name : String
  pub address : Address
  pub filter_chains : List (Option FilterChain)
  pub listener_filters : List String

-- A route's statuses by its namespace and its name.
abbrev pub RouteStatuses : Type 0
RouteStatuses = List ((String × String) × List RouteParentStatus)

abbrev pub RoutesByListener : Type 0
RoutesByListener = List (String × List HttpRoute)

pub record Work : Type 0 where
  pub route_statuses : RouteStatuses
  pub clusters : List (String × Cluster)
  pub listener_statuses : List (String × ListenerStatus)
  pub route_configs : List RouteConfiguration
  pub envoy_listeners : List EnvoyListener
  pub virtual_hosts : List (String × VirtualHost)
  pub filter_chains : List (Option FilterChain)
  pub attached_routes : ℕ

abbrev pub route_key : HttpRoute → String × String
route_key route = (route.meta.namespace, route.meta.name)

abbrev pub store_statuses : String × String → List RouteParentStatus → RouteStatuses → RouteStatuses
store_statuses key [] m = m
store_statuses key (s ∷ ss) m = insert key (s ∷ ss) m

-- The loop over the accepting listeners, with the names that `processedListeners` holds.
unfoldable pub attach_to_listeners :
    HttpRoute → List String → List Listener → RoutesByListener → RoutesByListener
unfolding lookup insert
attach_to_listeners route processed [] m = m
attach_to_listeners route processed (l ∷ ls) m =
    let attached = or_default [] (lookup l.name m) ++ route ∷ [] in
    let seen = any (λ n. n == l.name) processed in
    attach_to_listeners route (if seen then processed else l.name ∷ processed) ls
      (if seen then m else insert l.name attached m)

-- The loop over the routes of the Gateway.
unfoldable pub attach_routes :
    Context
    → Gateway
    → List HttpRoute
    → RouteStatuses × RoutesByListener
    → RouteStatuses × RoutesByListener
unfolding validate_http_route attach_to_listeners
attach_routes ctx gateway [] st = st
attach_routes ctx gateway (route ∷ routes) (statuses, by_listener) =
    let (parents, accepting) =
      validate_http_route ctx.translator ctx.order_accepted gateway route in
    attach_routes ctx gateway routes (
      store_statuses (route_key route) parents statuses,
      attach_to_listeners route [] accepting by_listener,
    )
