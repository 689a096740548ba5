-- ===== src/Translator/Snapshot/Closed.antt =====
-- Routes and clusters of a Gateway's configuration agree: buildEnvoyResourcesForGateway of
-- pkg/translator/translator.go.
use mathlib.Core.Path.{subst}
use kube_agentic_networking.Common.{
  if◌then◌else◌, ℕ, String, ◌≡◌, sym, inl, inr, Bool, true, false, not, Option, some, List, [], ◌∷◌,
  or_default, lookup, lookup-In, In-values_iff, string_eq, In, In-append, In-map, IsOrder,
  Bool-cases, bind-cases, some_inj,
}
use kube_agentic_networking.Api.{Got, got, error, Listener, Gateway}
use kube_agentic_networking.Translator.Envoy.{EnvoyRoute, VirtualHost, Cluster}
use kube_agentic_networking.Translator.Attachment.{is_http, get_supported_kinds}
use kube_agentic_networking.Translator.Conflicts.{validate_listeners, group_by_port, ConditionsMap}
use kube_agentic_networking.Translator.FilterChains.{FilterChain}
use kube_agentic_networking.Translator.Matches.Precedence.{sort_routes, route_less}
use kube_agentic_networking.Translator.Matches.Order.{IsSort}
use kube_agentic_networking.Translator.Snapshot.{
  Context, Work, ListenerStatus, RouteConfiguration, RoutesByListener,
}
use kube_agentic_networking.Translator.Snapshot.Backed.{Refers}
use kube_agentic_networking.Translator.Snapshot.Programming.{
  add_chain, start_status, route_listener, program_listener, process_listener, process_listeners,
}
use kube_agentic_networking.Translator.Snapshot.Building.{
  attached, process_gateway, Snapshot, route_config_name, sorted_host, port_config, close_port,
  process_port, process_ports, start_work, build_envoy_resources_for_gateway,
}
use kube_agentic_networking.Translator.Snapshot.Served.{IsServed, Serves, add_routes-IsServed}

-- Every cluster that an action of any of the routes names is among the clusters.
abbrev pub IsClosed : Snapshot → Type 0
IsClosed s =
    (rc : RouteConfiguration) (vh : VirtualHost) (r : EnvoyRoute) (name : String)
    → In rc s.routes
    → In vh rc.virtual_hosts
    → In r vh.routes
    → Refers r name
    → (c : Cluster) × In c s.clusters × (c.name ≡ name)

module _ (ctx : Context) (gateway : Gateway) where
  add_chain-IsServed :
      (g : Got (Option FilterChain)) (s : ListenerStatus) (w : Work)
      → IsServed w
      → IsServed (add_chain ctx gateway g s w)
  unfolding add_chain
  add_chain-IsServed (error msg) s w h = h
  add_chain-IsServed (got chain) s w h = h

  module _ (by_listener : RoutesByListener) (port : ℕ) (route_name : String) where
    route_listener-IsServed :
        (l : Listener) (w next : Work)
        → route_listener ctx gateway by_listener port route_name l w ≡ some next
        → IsServed w
        → IsServed next
    route_listener-IsServed l w next run h = elim (Bool-cases (is_http l.protocol)) [
      | inl t ↦
          add_routes-IsServed ctx gateway port l (or_default [] (lookup l.name by_listener)) w next
            (rw t at run) h
      | inr f ↦ subst IsServed (some_inj (rw f at run)) h
    ]

    program_listener-IsServed :
        (l : Listener) (s : ListenerStatus) (w next : Work)
        → program_listener ctx gateway by_listener port route_name l s w ≡ some next
        → IsServed w
        → IsServed next
    unfolding program_listener
    program_listener-IsServed l s w next run h =
        let (routed, first, last) =
          bind-cases
            (route_listener ctx gateway by_listener port route_name l
              (record w { attached_routes = 0 }))
            _ next run in
        subst IsServed (some_inj last) (
          add_chain-IsServed _ _ routed
            (route_listener-IsServed l (record w { attached_routes = 0 }) routed first h))

    process_listener-IsServed :
        (validated : ConditionsMap) (l : Listener) (w next : Work)
        → process_listener ctx gateway by_listener port route_name validated l w ≡ some next
        → IsServed w
        → IsServed next
    unfolding process_listener
    process_listener-IsServed validated l w next run h =
        by_tests (not (get_supported_kinds l).1)
          (ctx.ops.is_status_condition_true (start_status ctx gateway validated l).conditions
            "Conflicted")
          _ _ h h run
      where
        by_tests :
            (invalid conflicted : Bool) (a b : Work)
            → IsServed a
            → IsServed b
            → (if invalid
                then some a
                else if conflicted
                then some b
                else program_listener ctx gateway by_listener port route_name l
                    (start_status ctx gateway validated l)
                    w)
              ≡ some next
            → IsServed next
        by_tests true c a b p q run = subst IsServed (some_inj run) p
        by_tests false true a b p q run = subst IsServed (some_inj run) q
        by_tests false false a b p q run = program_listener-IsServed l _ w next run h

    process_listeners-IsServed :
        (validated : ConditionsMap) (ls : List Listener) (w next : Work)
        → process_listeners ctx gateway by_listener port route_name validated ls w ≡ some next
        → IsServed w
        → IsServed next
    unfolding process_listeners
    process_listeners-IsServed validated [] w next run h = subst IsServed (some_inj run) h
    process_listeners-IsServed validated (l ∷ ls) w next run h =
        let (mid, first, later) =
          bind-cases (process_listener ctx gateway by_listener port route_name validated l w) _ next
            run in
        process_listeners-IsServed validated ls mid next later
          (process_listener-IsServed validated l w mid first h)

  close_port-IsServed :
      (port : ℕ) (ls : List Listener) (w : Work)
      → IsSort ctx.sort_slice
      → IsOrder ctx.order_hosts
      → IsServed w
      → IsServed (close_port ctx gateway port ls w)
  unfolding close_port port_config sort_routes
  close_port-IsServed port ls w sorts order (hosts, configs) = (
    hosts,
    λ rc i. elim ((In-append rc w.route_configs (port_config ctx gateway port w ∷ [])).0 i) [
      | inl j ↦ configs rc j
      | inr j ↦ elim j [
        | inl e ↦
            subst
              (λ z.
                (vh : VirtualHost)
                → In vh z.virtual_hosts
                → (r : EnvoyRoute) (name : String) → In r vh.routes
                → Refers r name
                → Serves w.clusters name)
              (sym e)
              (λ vh k.
                let (old, q, same) = In-map (sorted_host ctx gateway) vh _ k in
                let (d, p) = (In-values_iff old (ctx.order_hosts w.virtual_hosts)).0 q in
                let there =
                  (In-values_iff old w.virtual_hosts).1 (d, (order w.virtual_hosts (d, old)).0 p) in
                λ r name u refers.
                  hosts old there r name
                    ((sorts.elements route_less r old.routes).0 (subst (λ z. In r z.routes) same u))
                    refers)
        | inr k ↦ elim k [ ]
      ]
    ],
  )

  process_ports-IsServed :
      (by_listener : RoutesByListener) (validated : ConditionsMap)
      (ports : List (ℕ × List Listener)) (w next : Work)
      → IsSort ctx.sort_slice
      → IsOrder ctx.order_hosts
      → process_ports ctx gateway by_listener validated ports w ≡ some next
      → IsServed w
      → IsServed next
  unfolding process_ports process_port
  process_ports-IsServed by_listener validated [] w next sorts order run h =
      subst IsServed (some_inj run) h
  process_ports-IsServed by_listener validated ((port, ls) ∷ ports) w next sorts order run h =
      let (mid, first, later) =
        bind-cases (process_port ctx gateway by_listener validated port ls w) _ next run in
      let (done, walked, closed) =
        bind-cases
          (process_listeners ctx gateway by_listener port (route_config_name port) validated ls
            (record w { virtual_hosts = []; filter_chains = [] }))
          _ mid first in
      process_ports-IsServed by_listener validated ports mid next sorts order later (
        subst IsServed (some_inj closed) (
          close_port-IsServed port ls done sorts order (
            process_listeners-IsServed by_listener port (route_config_name port) validated ls _ done
              walked ((λ vh i. elim i [ ]), h.1))))

  process_gateway-IsServed :
      (w : Work)
      → IsSort ctx.sort_slice
      → IsOrder ctx.order_hosts
      → process_gateway ctx gateway ≡ some w
      → IsServed w
  unfolding process_gateway start_work
  process_gateway-IsServed w sorts order run =
      process_ports-IsServed (attached ctx gateway).1
        (validate_listeners ctx.ops ctx.order_validated gateway)
        (ctx.order_ports (group_by_port [] gateway.listeners))
        (start_work ctx gateway (attached ctx gateway).0) w sorts order run
        ((λ vh i. elim i [ ]), (λ rc i. elim i [ ]))

-- Where the configuration of a Gateway is built, sort.Slice sorts and the loops over the maps of
-- virtual hosts and of clusters reach their entries and no others, every cluster that an action of any of
-- its routes names is among its clusters.
pub build_envoy_resources-IsClosed :
    (ctx : Context) (gateway : Gateway) (s : Snapshot)
    → IsSort ctx.sort_slice
    → IsOrder ctx.order_hosts
    → IsOrder ctx.order_clusters
    → build_envoy_resources_for_gateway ctx gateway ≡ some s
    → IsClosed s
unfolding build_envoy_resources_for_gateway
build_envoy_resources-IsClosed ctx gateway s sorts hosts clusters run =
    let (w, worked, same) = bind-cases (process_gateway ctx gateway) _ s run in
    let (_, served) = process_gateway-IsServed ctx gateway w sorts hosts worked in
    subst IsClosed (some_inj same) (λ rc vh r name i j k refers.
      let (c, e, n) = served rc i vh j r name k refers in
      (
        c,
        (In-values_iff c (ctx.order_clusters w.clusters)).1
            (name, (clusters w.clusters (name, c)).1 (lookup-In name c w.clusters e)),
        n,
      ))
