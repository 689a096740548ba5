-- ===== src/Translator/Snapshot/Building.antt =====
-- The ports of a Gateway and the whole configuration: the loop over listenersByPort in
-- buildEnvoyResourcesForGateway of pkg/translator/translator.go, and what precedes and follows it.
use kube_agentic_networking.Common.{
  ℕ, String, true, Option, none, some, List, [], ◌∷◌, ◌++◌, map, or_default, lookup, string_eq,
  nat_eq, values, ◌>>=◌, concat, decimal,
}
use kube_agentic_networking.Api.{Got, got, error, http, Protocol, Listener, Gateway}
use kube_agentic_networking.Translator.Envoy.{VirtualHost, Cluster}
use kube_agentic_networking.Translator.Matches.Precedence.{sort_routes}
use kube_agentic_networking.Translator.Attachment.{get_http_routes_for_gateway}
use kube_agentic_networking.Translator.ExtAuthz.{build_ext_authz_backend_clusters}
use kube_agentic_networking.Translator.Conflicts.{ConditionsMap, group_by_port, validate_listeners}
use kube_agentic_networking.Translator.FilterChains.{
  FilterChain, translate_listener_to_filter_chain, create_envoy_address, create_listener_filters,
}
use kube_agentic_networking.Translator.Snapshot.{
  Context, Work, ListenerStatus, RouteConfiguration, EnvoyListener, RouteStatuses, RoutesByListener,
  attach_routes,
}
use kube_agentic_networking.Translator.Snapshot.Programming.{process_listeners}

abbrev pub chain_or_nil : Got (Option FilterChain) → Option FilterChain
chain_or_nil (error msg) = none
chain_or_nil (got chain) = chain

abbrev pub route_config_name : ℕ → String
route_config_name port = concat ("route-" ∷ decimal port ∷ [])

-- The result of the function.
pub record Snapshot : Type 0 where
  pub listeners : List EnvoyListener
  pub routes : List RouteConfiguration
  pub clusters : List Cluster
  pub listener_statuses : List ListenerStatus
  pub http_route_statuses : RouteStatuses

-- The zero value, of a listener that has no status.
abbrev pub no_status : ListenerStatus
no_status = record { name = ""; supported_kinds = []; attached_routes = 0; conditions = [] }

module _ (ctx : Context) (gateway : Gateway) where
  -- On a port whose first listener is of HTTP, one filter chain, of that listener, replaces all.
  abbrev pub replace_chains :
      ℕ → Listener → Protocol → List (Option FilterChain) → List (Option FilterChain)
  replace_chains port l http chains =
      chain_or_nil (translate_listener_to_filter_chain ctx.translator l (route_config_name port))
      ∷ []
  replace_chains port l p chains = chains

  abbrev pub port_chains : ℕ → List Listener → List (Option FilterChain) → List (Option FilterChain)
  port_chains port [] chains = chains
  port_chains port (l ∷ ls) chains = replace_chains port l l.protocol chains

  abbrev pub port_listener : ℕ → List Listener → List (Option FilterChain) → List EnvoyListener
  port_listener port ls [] = []
  port_listener port ls (c ∷ cs) =
      record {
        name = concat ("listener-" ∷ decimal port ∷ []);
        address = create_envoy_address port;
        filter_chains = port_chains port ls (c ∷ cs);
        listener_filters = create_listener_filters;
      }
      ∷ []

  abbrev pub sorted_host : VirtualHost → VirtualHost
  sorted_host vh = record vh { routes = sort_routes ctx.sort_slice vh.routes }

  unfoldable pub port_config : ℕ → Work → RouteConfiguration
  unfolding sort_routes decimal concat
  port_config port w = record {
    name = route_config_name port;
    virtual_hosts = map sorted_host (values (ctx.order_hosts w.virtual_hosts));
    ignore_port_in_host_matching = true;
  }

  unfoldable pub close_port : ℕ → List Listener → Work → Work
  unfolding port_config translate_listener_to_filter_chain create_envoy_address
      create_listener_filters decimal concat
  close_port port ls w = record w {
    route_configs = w.route_configs ++ port_config port w ∷ [];
    envoy_listeners = w.envoy_listeners ++ port_listener port ls w.filter_chains;
  }

  unfoldable pub process_port :
      RoutesByListener → ConditionsMap → ℕ → List Listener → Work → Option Work
  unfolding process_listeners close_port
  process_port by_listener validated port ls w = do
    done ←
        process_listeners ctx gateway by_listener port (route_config_name port) validated ls
          (record w { virtual_hosts = []; filter_chains = [] })
    some (close_port port ls done)

  unfoldable pub process_ports :
      RoutesByListener → ConditionsMap → List (ℕ × List Listener) → Work → Option Work
  unfolding process_port
  process_ports by_listener validated [] w = some w
  process_ports by_listener validated ((port, ls) ∷ ports) w = do
    next ← process_port by_listener validated port ls w
    process_ports by_listener validated ports next

  unfoldable pub start_work : RouteStatuses → Work
  unfolding build_ext_authz_backend_clusters
  start_work statuses = record {
    route_statuses = statuses;
    clusters = build_ext_authz_backend_clusters ctx.translator;
    listener_statuses = [];
    route_configs = [];
    envoy_listeners = [];
    virtual_hosts = [];
    filter_chains = [];
    attached_routes = 0;
  }

  abbrev pub ordered_statuses : Work → List Listener → List ListenerStatus
  ordered_statuses w ls = map (λ l. or_default no_status (lookup l.name w.listener_statuses)) ls

  abbrev pub snapshot_of : Work → Snapshot
  snapshot_of w = record {
    listeners = w.envoy_listeners;
    routes = w.route_configs;
    clusters = values (ctx.order_clusters w.clusters);
    listener_statuses = ordered_statuses w gateway.listeners;
    http_route_statuses = w.route_statuses;
  }

  abbrev pub attached : RouteStatuses × RoutesByListener
  attached = attach_routes ctx gateway (get_http_routes_for_gateway ctx.translator gateway) ([], [])

  -- The function up to the loop over the ports.
  unfoldable pub process_gateway : Option Work
  unfolding process_ports start_work attach_routes get_http_routes_for_gateway validate_listeners
      group_by_port
  process_gateway =
      process_ports attached.1 (validate_listeners ctx.ops ctx.order_validated gateway)
        (ctx.order_ports (group_by_port [] gateway.listeners)) (start_work attached.0)

  unfoldable pub build_envoy_resources_for_gateway : Option Snapshot
  unfolding process_gateway lookup
  build_envoy_resources_for_gateway = do w ← process_gateway; some (snapshot_of w)
