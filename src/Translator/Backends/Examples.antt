-- ===== src/Translator/Backends/Examples.antt =====
-- Witnesses for the backends.
use kube_agentic_networking.Common.{String, ◌≡◌, ◌↔◌, ◌⊎◌, true, List, [], ◌∷◌, some, none, In}
use kube_agentic_networking.Api.{Got, got, ReferenceGrant}
use kube_agentic_networking.Translator.Samples.{store_service, mcp_backend, empty_backend}
use kube_agentic_networking.Translator.Backends.{
  RouteBackend, resolve_service_port, build_clusters, xbackend_result, allowed_by_reference_grant,
}
use kube_agentic_networking.Translator.Backends.Ports.{
  resolve_service_port-default, Dangling, build_clusters-none_iff,
}
use kube_agentic_networking.Translator.Backends.Grants.{Granted, allowed_by_reference_grant_iff}

resolve_service_port-default_example : resolve_service_port store_service (some 9) ≡ 9
resolve_service_port-default_example = resolve_service_port-default store_service (some 9)

build_clusters-none_iff_example :
    (build_clusters (xbackend_result mcp_backend ∷ xbackend_result empty_backend ∷ []) ≡ none) ↔ (
      (rb : RouteBackend) × In rb (xbackend_result mcp_backend ∷ xbackend_result empty_backend ∷ [])
      × Dangling rb)
build_clusters-none_iff_example =
    build_clusters-none_iff (xbackend_result mcp_backend ∷ xbackend_result empty_backend ∷ [])

abbrev web_to_services : String → Got (List ReferenceGrant)
web_to_services namespace = got (
    record {
      from =
          record { group = "gateway.networking.k8s.io"; kind = "HTTPRoute"; namespace = "web" }
          ∷ [];
      to = record { group = ""; kind = "Service" } ∷ [];
    }
    ∷ [])

allowed_by_reference_grant_iff_example :
    (allowed_by_reference_grant "web" "shop" web_to_services ≡ true) ↔ (
      (◌≡◌ {A = String} "web" "shop")
      ⊎ ((gs : List ReferenceGrant) × (web_to_services "shop" ≡ got gs) × Granted "web" gs))
allowed_by_reference_grant_iff_example = allowed_by_reference_grant_iff "web" "shop" web_to_services
