-- ===== src/Translator/Snapshot/Routing.antt =====
-- The routes of one listener, in virtual hosts and clusters: the loop over routesByListener in
-- buildEnvoyResourcesForGateway of pkg/translator/translator.go.
use kube_agentic_networking.Common.{
  ℕ, ◌+◌, String, Option, some, List, [], ◌∷◌, ◌++◌, if◌then◌else◌, or_default, lookup, insert,
  string_eq, name_eq, ◌>>=◌, concat, decimal,
}
use kube_agentic_networking.Api.{Condition, Listener, Gateway, HttpRoute}
use kube_agentic_networking.Translator.Envoy.{EnvoyRoute, VirtualHost, Cluster}
use kube_agentic_networking.Translator.Conditions.{ConditionOps}
use kube_agentic_networking.Translator.Hostnames.{get_intersecting_hostnames}
use kube_agentic_networking.Translator.Attachment.{RouteParentStatus}
use kube_agentic_networking.Translator.Backends.{build_clusters}
use kube_agentic_networking.Translator.Routes.{Translated, translate_http_route_to_envoy_routes}
use kube_agentic_networking.Translator.Snapshot.{Context, Work, RouteStatuses, route_key}

-- The condition is added to the statuses of the parents that accepted the route.
unfoldable pub set_resolved :
    ConditionOps → Condition → List RouteParentStatus → List RouteParentStatus
set_resolved ops c [] = []
set_resolved ops c (s ∷ rest) =
    let later = set_resolved ops c rest in
    (if ops.is_status_condition_true s.conditions "Accepted"
      then record s { conditions = ops.set_status_condition s.conditions c }
      else s)
    ∷ later

unfoldable pub add_clusters : List Cluster → List (String × Cluster) → List (String × Cluster)
unfolding insert
add_clusters [] m = m
add_clusters (c ∷ cs) m = add_clusters cs (insert c.name c m)

-- The virtual host of a domain, as it is before its first route.
unfoldable pub new_host : Gateway → ℕ → String → VirtualHost
unfolding concat decimal
new_host gateway port domain = record {
  name = concat (gateway.meta.name ∷ "-vh-" ∷ decimal port ∷ "-" ∷ domain ∷ []);
  domains = domain ∷ [];
  routes = [];
}

unfoldable pub add_to_host :
    Gateway
    → ℕ
    → List EnvoyRoute
    → String
    → List (String × VirtualHost)
    → List (String × VirtualHost)
unfolding new_host lookup insert
add_to_host gateway port routes domain hosts =
    let host = or_default (new_host gateway port domain) (lookup domain hosts) in
    insert domain (record host { routes = host.routes ++ routes }) hosts

unfoldable pub add_to_hosts :
    Gateway
    → ℕ
    → List EnvoyRoute
    → List String
    → List (String × VirtualHost)
    → List (String × VirtualHost)
unfolding add_to_host
add_to_hosts gateway port routes [] hosts = hosts
add_to_hosts gateway port routes (domain ∷ domains) hosts =
    add_to_hosts gateway port routes domains (add_to_host gateway port routes domain hosts)

-- A route without Envoy routes is not attached.
unfoldable pub aggregate : Gateway → ℕ → List String → List EnvoyRoute → Work → Work
unfolding add_to_hosts
aggregate gateway port domains [] w = w
aggregate gateway port domains (r ∷ rs) w = record w {
  attached_routes = w.attached_routes + 1;
  virtual_hosts = add_to_hosts gateway port (r ∷ rs) domains w.virtual_hosts;
}

module _ (ctx : Context) (gateway : Gateway) (port : ℕ) (l : Listener) where
  abbrev pub with_resolved : HttpRoute → Condition → RouteStatuses → RouteStatuses
  with_resolved route c m =
      insert (route_key route) (set_resolved ctx.ops c (or_default [] (lookup (route_key route) m)))
        m

  -- The body of the loop after the clusters are built.
  abbrev pub add_translated : HttpRoute → Translated → List Cluster → Work → Work
  add_translated route translated clusters w =
      aggregate gateway port (get_intersecting_hostnames ctx.order_hostnames l route.hostnames)
        translated.envoy_routes
        (record w {
          route_statuses = with_resolved route translated.overall_condition w.route_statuses;
          clusters = add_clusters clusters w.clusters;
        })

  unfoldable pub add_route : HttpRoute → Work → Option Work
  unfolding aggregate add_clusters set_resolved translate_http_route_to_envoy_routes
      get_intersecting_hostnames build_clusters
  add_route route w =
      let translated = translate_http_route_to_envoy_routes ctx.translator route in
      (do
        clusters ← build_clusters translated.all_valid_backends
        some (add_translated route translated clusters w))

  unfoldable pub add_routes : List HttpRoute → Work → Option Work
  unfolding add_route
  add_routes [] w = some w
  add_routes (route ∷ routes) w = do next ← add_route route w; add_routes routes next
