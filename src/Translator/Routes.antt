-- ===== src/Translator/Routes.antt =====
-- HTTPRoutes as Envoy's routes: buildHTTPRouteAction, buildPerClusterRBACFilterConfig and
-- translateHTTPRouteToEnvoyRoutes of pkg/translator/httproute.go.
pub mod Weights
pub mod Outcome
mod Examples
use kube_agentic_networking.Common.{
  ℕ, ◌+◌, String, Bool, true, false, Option, none, some, List, [], ◌∷◌, ◌++◌, ◌==◌, eqb,
  if◌then◌else◌, or_default, is_empty, concat, decimal,
}
use kube_agentic_networking.Api.{
  Got, got, error, Condition, XBackend, BackendRef, HttpRouteMatch, HttpRouteRule, HttpRoute,
}
use kube_agentic_networking.Translator.Env.{Translator}
use kube_agentic_networking.Translator.Envoy.{
  Rbac, ClusterWeight, RouteMatch, RouteAction, Action, redirect, route_to, direct_response,
  EnvoyRoute,
}
use kube_agentic_networking.Translator.Matches.{
  create_success_condition, create_failure_condition, translate_http_route_match,
}
use kube_agentic_networking.Translator.Matches.Filters.{RuleFilters, no_filters, process_filters}
use kube_agentic_networking.Translator.Backends.{
  ControllerError, Result, ok, fails, ◌>>=◌, RouteBackend, backend_hostname, fetch_backend, uint32,
}
use kube_agentic_networking.Translator.Rbac.{rbac_config_from_access_policy}

abbrev pub config_or_nil : Got Rbac → Option Rbac
config_or_nil (error msg) = none
config_or_nil (got c) = some c

-- The error of building the configuration is logged, and leaves the cluster without one.
unfoldable pub build_per_cluster_rbac_filter_config : Translator → Option XBackend → Option Rbac
unfolding rbac_config_from_access_policy
build_per_cluster_rbac_filter_config t none = none
build_per_cluster_rbac_filter_config t (some b) = config_or_nil (rbac_config_from_access_policy t b)

abbrev pub host_rewrite : String → Option String
host_rewrite host = if host == "" then none else some host

unfoldable pub cluster_weight : Translator → RouteBackend → ℕ → ClusterWeight
unfolding build_per_cluster_rbac_filter_config backend_hostname
cluster_weight t rb weight = record {
  name = rb.cluster_name;
  weight = uint32 weight;
  host_rewrite_literal = host_rewrite (backend_hostname rb);
  typed_per_filter_config = build_per_cluster_rbac_filter_config t rb.xbackend;
}

abbrev pub add_cluster : Translator → RouteBackend → ℕ → List ClusterWeight → List ClusterWeight
add_cluster t rb weight clusters =
    if eqb weight 0 then clusters else cluster_weight t rb weight ∷ clusters

-- The loop over the backend references.
unfoldable pub weigh_backends :
    Translator → String → List BackendRef → Result (List ClusterWeight × List RouteBackend)
unfolding cluster_weight fetch_backend
weigh_backends t namespace [] = ok ([], [])
weigh_backends t namespace (ref ∷ refs) = do
  rb ← fetch_backend t namespace ref
  later ← weigh_backends t namespace refs
  ok (add_cluster t rb (or_default 1 ref.weight) later.0, rb ∷ later.1)

abbrev pub weighted :
    List ClusterWeight → List RouteBackend → Result (RouteAction × List RouteBackend)
weighted [] backends = fails (record {
  reason = "UnsupportedValue";
  message = "no valid backends provided with a weight > 0";
})
weighted (c ∷ clusters) backends = ok (
  record {
    clusters = c ∷ clusters;
    host_rewrite_specifier = none;
    regex_rewrite = none;
    prefix_rewrite = "";
  },
  backends,
)

unfoldable pub build_http_route_action :
    Translator → String → List BackendRef → Result (RouteAction × List RouteBackend)
unfolding weigh_backends
build_http_route_action t namespace refs = do
  found ← weigh_backends t namespace refs
  weighted found.0 found.1

-- The three results of translateHTTPRouteToEnvoyRoutes while they are collected.
pub record Translated : Type 0 where
  pub envoy_routes : List EnvoyRoute
  pub all_valid_backends : List RouteBackend
  pub overall_condition : Condition

-- constants.EnvoyRouteNameFormat
unfoldable pub envoy_route_name : HttpRoute → ℕ → ℕ → String
unfolding decimal
envoy_route_name route rule_index match_index = concat (
    route.meta.namespace
    ∷ "-"
    ∷ route.meta.name
    ∷ "-rule"
    ∷ decimal rule_index
    ∷ "-match"
    ∷ decimal match_index
    ∷ [])

-- The properties of a URLRewrite filter are merged into the action.
abbrev pub merge_rewrite : Option RouteAction → RouteAction → RouteAction
merge_rewrite none action = action
merge_rewrite (some r) action = record action {
  host_rewrite_specifier = r.host_rewrite_specifier;
  regex_rewrite = r.regex_rewrite;
  prefix_rewrite = r.prefix_rewrite;
}

module _ (t : Translator) (route : HttpRoute) where
  unfoldable pub make_route : RuleFilters → String → RouteMatch → Action → EnvoyRoute
  make_route f name m action = record {
    name = name;
    match = m;
    request_headers_to_add = f.headers_to_add;
    request_headers_to_remove = f.headers_to_remove;
    action = action;
  }

  -- A rule that forwards: the result of buildHTTPRouteAction.
  unfoldable pub add_forwarding :
      RuleFilters
      → String
      → RouteMatch
      → Result (RouteAction × List RouteBackend)
      → Translated
      → Translated
  unfolding make_route create_failure_condition
  add_forwarding f name m (fails e) st = record {
    envoy_routes = st.envoy_routes ++ make_route f name m (direct_response 500) ∷ [];
    all_valid_backends = st.all_valid_backends;
    overall_condition = create_failure_condition e.reason e.message route.meta.generation;
  }
  add_forwarding f name m (ok (action, backends)) st = record {
    envoy_routes =
        st.envoy_routes
        ++ make_route f name m (route_to (merge_rewrite f.url_rewrite_action action)) ∷ [];
    all_valid_backends = st.all_valid_backends ++ backends;
    overall_condition = st.overall_condition;
  }

  abbrev pub add_matched :
      RuleFilters → List BackendRef → String → RouteMatch → Translated → Translated
  add_matched f refs name m st = elim f.redirect_action [
    | some action ↦ record st {
      envoy_routes = st.envoy_routes ++ make_route f name m (redirect action) ∷ [];
    }
    | none ↦ add_forwarding f name m (build_http_route_action t route.meta.namespace refs) st
  ]

  -- buildRoutesForRule; the match is nil exactly where its condition is "False".
  unfoldable pub build_route_for_match :
      RuleFilters → List BackendRef → ℕ → HttpRouteMatch → ℕ → Translated → Translated
  unfolding add_forwarding make_route build_http_route_action envoy_route_name
      translate_http_route_match
  build_route_for_match f refs rule_index match match_index st =
      let (m, condition) = translate_http_route_match match route.meta.generation in
      elim m [
        | none ↦ record st { overall_condition = condition }
        | some rm ↦ add_matched f refs (envoy_route_name route rule_index match_index) rm st
      ]

  unfoldable pub build_matches :
      RuleFilters → List BackendRef → ℕ → ℕ → List HttpRouteMatch → Translated → Translated
  unfolding build_route_for_match
  build_matches f refs rule_index match_index [] st = st
  build_matches f refs rule_index match_index (m ∷ rest) st =
      build_matches f refs rule_index (match_index + 1) rest
        (build_route_for_match f refs rule_index m match_index st)

  abbrev pub any_match : HttpRouteMatch
  any_match = record { path = none; headers = []; query_params = [] }

  -- A rule with no matches has the empty match.
  abbrev pub matches_of : HttpRouteRule → List HttpRouteMatch
  matches_of rule = if is_empty rule.matches then any_match ∷ [] else rule.matches

  unfoldable pub build_rules : ℕ → List HttpRouteRule → Translated → Translated
  unfolding build_matches process_filters
  build_rules rule_index [] st = st
  build_rules rule_index (rule ∷ rest) st = build_rules (rule_index + 1) rest (
      build_matches (process_filters no_filters rule.filters) rule.backend_refs rule_index 0
        (matches_of rule) st)

  unfoldable pub translate_http_route_to_envoy_routes : Translated
  unfolding build_rules create_success_condition
  translate_http_route_to_envoy_routes = build_rules 0 route.rules (record {
    envoy_routes = [];
    all_valid_backends = [];
    overall_condition = create_success_condition route.meta.generation;
  })
