-- ===== src/Translator/Routes/Examples.antt =====
-- Witnesses for the routes.
use kube_agentic_networking.Common.{◌≡◌, ◌≢◌, ◌↔◌, ◌⊎◌, refl, [], ◌∷◌, some, none, In, All, concat}
use kube_agentic_networking.Translator.Samples.{sample, store_route, store_rule, to_service}
use kube_agentic_networking.Api.{BackendRef}
use kube_agentic_networking.Translator.Envoy.{ClusterWeight, RouteAction}
use kube_agentic_networking.Translator.Backends.{
  ControllerError, ok, fails, RouteBackend, fetch_backend,
}
use kube_agentic_networking.Translator.Routes.{
  build_http_route_action, translate_http_route_to_envoy_routes, matches_of,
}
use kube_agentic_networking.Translator.Routes.Weights.{
  Resolves, Forwarded, weight_of, build_http_route_action-ok, build_http_route_action-fails,
}
use kube_agentic_networking.Translator.Routes.Outcome.{Served, translate_http_route-condition}

abbrev store_action : RouteAction
store_action = record {
  clusters =
      record {
        name = "shop-store";
        weight = 1;
        host_rewrite_literal = none;
        typed_per_filter_config = none;
      }
      ∷ [];
  host_rewrite_specifier = none;
  regex_rewrite = none;
  prefix_rewrite = "";
}

abbrev store_backend : RouteBackend
store_backend = record {
  cluster_name = "shop-store";
  xbackend = none;
  svc_ns = "shop";
  svc_name = "store";
  svc_port = 8080;
}

-- The second reference has weight 0.
store_built :
    build_http_route_action sample "shop" (to_service none ∷ to_service (some 0) ∷ [])
    ≡ ok (store_action, store_backend ∷ store_backend ∷ [])
unfolding build_http_route_action concat
store_built = refl

build_http_route_action-ok_example :
    Resolves sample "shop"
      (to_service none ∷ to_service (some 0) ∷ [])
      (store_backend ∷ store_backend ∷ [])
    × ((c : ClusterWeight)
        → In c store_action.clusters
          ↔ Forwarded sample "shop" (to_service none ∷ to_service (some 0) ∷ []) c)
    × (store_action.clusters ≢ [])
build_http_route_action-ok_example =
    build_http_route_action-ok sample "shop" (to_service none ∷ to_service (some 0) ∷ [])
      store_action (store_backend ∷ store_backend ∷ []) store_built

abbrev no_weight : ControllerError
no_weight = record {
  reason = "UnsupportedValue";
  message = "no valid backends provided with a weight > 0";
}

weightless_built :
    build_http_route_action sample "shop" (to_service (some 0) ∷ []) ≡ fails no_weight
unfolding build_http_route_action concat
weightless_built = refl

build_http_route_action-fails_example :
    ((ref : BackendRef) × In ref (to_service (some 0) ∷ [])
      × (fetch_backend sample "shop" ref ≡ fails no_weight))
    ⊎ (All (λ ref. weight_of ref ≡ 0) (to_service (some 0) ∷ [])
        × (no_weight.reason ≡ "UnsupportedValue"))
build_http_route_action-fails_example =
    build_http_route_action-fails sample "shop" (to_service (some 0) ∷ []) no_weight
      weightless_built

translate_http_route-condition_example :
    (((translate_http_route_to_envoy_routes sample store_route).overall_condition.status ≡ "True")
      ↔ All
          (λ rule. All (Served sample store_route rule) (matches_of sample store_route rule))
          (store_rule ∷ []))
    × ((All
            (λ rule. All (Served sample store_route rule) (matches_of sample store_route rule))
            (store_rule ∷ [])
          → ⊥)
        → (translate_http_route_to_envoy_routes sample store_route).overall_condition.status
          ≡ "False")
translate_http_route-condition_example = translate_http_route-condition sample store_route
