-- ===== src/Translator/Snapshot/Examples.antt =====
-- Tests and witnesses of a Gateway's configuration.
use kube_agentic_networking.Common.{
  inr, In, inl, Option, List, ◌≡◌, refl, some, [], ◌∷◌, or_default, length, map,
}
use kube_agentic_networking.Api.{Listener, https, got}
use kube_agentic_networking.Translator.Samples.{auth_filter, web, sample, front, store_route}
use kube_agentic_networking.Translator.SampleConditions.{condition_ops}
use kube_agentic_networking.Translator.SampleSort.{insertion_sort, insertion_sort-IsSort}
use kube_agentic_networking.Translator.Snapshot.{Cluster, EnvoyListener, Work, Context}
use kube_agentic_networking.Translator.Snapshot.Building.{
  chain_or_nil, route_config_name, process_port, Snapshot, build_envoy_resources_for_gateway,
}
use kube_agentic_networking.Translator.FilterChains.{
  router_filter, create_listener_filters, ext_authz, rbac_filter,
  translate_listener_to_filter_chain, mcp_filter, create_envoy_address, build_local_reply_config,
  http_connection_manager, HttpConnectionManager, plain_chain, FilterChain,
}
use kube_agentic_networking.Translator.Snapshot.Chains.{Chains}
use kube_agentic_networking.Translator.Snapshot.Plain.{Opened, process_port-Opened}
use kube_agentic_networking.Translator.Snapshot.Checked.{Checks, build_envoy_resources-IsChecked}
use kube_agentic_networking.Translator.ExtAuthz.{ExtAuthz, ext_authz_filter, build_ext_authz_config}
use kube_agentic_networking.Translator.Snapshot.Closed.{IsClosed, build_envoy_resources-IsClosed}

abbrev context : Context
context = record {
  translator = record sample { http_routes = got (store_route ∷ []) };
  ops = condition_ops;
  sort_slice = insertion_sort;
  order_accepted = λ ls. ls;
  order_validated = λ ports. ports;
  order_hostnames = λ hs. hs;
  order_ports = λ ports. ports;
  order_hosts = λ hosts. hosts;
  order_clusters = λ cs. cs;
}

abbrev nothing_built : Snapshot
nothing_built = record {
  listeners = [];
  routes = [];
  clusters = [];
  listener_statuses = [];
  http_route_statuses = [];
}

abbrev front_snapshot : Snapshot
front_snapshot = or_default nothing_built (build_envoy_resources_for_gateway context front)

front-built : build_envoy_resources_for_gateway context front ≡ some front_snapshot
unfolding build_envoy_resources_for_gateway condition_ops insertion_sort
front-built = refl

-- One listener, one route configuration, and the clusters of the external authorization and of the Service.
front_snapshot_test :
    (map (λ c. c.name) front_snapshot.clusters
      ≡ "authz.shop.svc.cluster.local-grpc:9000" ∷ "authz.bank.svc.cluster.local-grpc:9000"
        ∷ "shop-store" ∷ [])
    × (length front_snapshot.listeners ≡ 1)
    × (length front_snapshot.routes ≡ 1)
    × (map (λ s. s.attached_routes) front_snapshot.listener_statuses ≡ 1 ∷ [])
unfolding build_envoy_resources_for_gateway condition_ops insertion_sort
front_snapshot_test = (refl, refl, refl, refl)

build_envoy_resources-IsClosed_example : IsClosed front_snapshot
build_envoy_resources-IsClosed_example =
    build_envoy_resources-IsClosed context front front_snapshot insertion_sort-IsSort
      (λ xs x. (λ i. i, λ i. i)) (λ xs x. (λ i. i, λ i. i)) front-built

-- A port with a listener of HTTP and one of HTTPS, whose filter chains are both built.
abbrev secure : Listener
secure = record web { name = "secure"; protocol = https }

abbrev empty_work : Work
empty_work = record {
  route_statuses = [];
  clusters = [];
  listener_statuses = [];
  route_configs = [];
  envoy_listeners = [];
  virtual_hosts = [];
  filter_chains = [];
  attached_routes = 0;
}

abbrev shared_port : Work
shared_port =
    or_default empty_work (process_port context front [] [] 80 (web ∷ secure ∷ []) empty_work)

shared_port-built :
    process_port context front [] [] 80 (web ∷ secure ∷ []) empty_work ≡ some shared_port
unfolding process_port condition_ops insertion_sort
shared_port-built = refl

-- The port has one filter chain, although both listeners are programmed.
shared_port_test :
    (map (λ e. length e.filter_chains) shared_port.envoy_listeners ≡ 1 ∷ [])
    × (map (λ s. map (λ c. c.status) s.1.conditions) shared_port.listener_statuses
        ≡ ("True" ∷ "True" ∷ "True" ∷ []) ∷ ("True" ∷ "True" ∷ "True" ∷ []) ∷ [])
unfolding process_port condition_ops insertion_sort
shared_port_test = (refl, refl)

process_port-Opened_example :
    (chains : List (Option FilterChain)) × Chains context front []
      (route_config_name 80)
      (web ∷ secure ∷ [])
      chains
    × Opened context front 80 web [] chains shared_port.envoy_listeners
process_port-Opened_example =
    process_port-Opened context front 80 web [] [] (secure ∷ []) empty_work shared_port
      shared_port-built

abbrev front_listener : EnvoyListener
front_listener = record {
  name = "listener-80";
  address = create_envoy_address 80;
  filter_chains =
      chain_or_nil (translate_listener_to_filter_chain context.translator web "route-80") ∷ [];
  listener_filters = create_listener_filters;
}

abbrev shop_check : ExtAuthz
shop_check = or_default (build_ext_authz_config "") (ext_authz_filter "shop" auth_filter "c0ffee")

abbrev front_manager : HttpConnectionManager
front_manager = record {
  stat_prefix = "web";
  local_reply_config = build_local_reply_config;
  route_config_name = "route-80";
  http_filters = mcp_filter ∷ rbac_filter ∷ ext_authz shop_check ∷ router_filter ∷ [];
}

abbrev front_chain : FilterChain
front_chain = plain_chain (http_connection_manager front_manager)

front_listener-built : In front_listener front_snapshot.listeners
unfolding build_envoy_resources_for_gateway condition_ops insertion_sort
front_listener-built = inl refl

front_chain-built : In (some front_chain) front_listener.filter_chains
unfolding build_envoy_resources_for_gateway
front_chain-built = inl refl

front_chain-Checks : Checks front_chain "authz.shop.svc.cluster.local-grpc:9000"
unfolding build_envoy_resources_for_gateway
front_chain-Checks = (front_manager, shop_check, inl refl, inr (inr (inl refl)), refl)

build_envoy_resources-IsChecked_example :
    (c : Cluster) × In c front_snapshot.clusters
    × (c.name ≡ "authz.shop.svc.cluster.local-grpc:9000")
build_envoy_resources-IsChecked_example =
    build_envoy_resources-IsChecked context front front_snapshot (λ xs x. (λ i. i, λ i. i))
      front-built front_listener front_chain "authz.shop.svc.cluster.local-grpc:9000"
      front_listener-built front_chain-built front_chain-Checks
