-- ===== src/Translator/Snapshot/Checked.antt =====
-- The external authorization of the Envoy listeners and its clusters: buildEnvoyResourcesForGateway of
-- pkg/translator/translator.go.
use mathlib.Core.Path.{subst}
use kube_agentic_networking.Common.{
  ℕ, String, ◌≡◌, sym, ap, ◌∙◌, ◌⊎◌, inl, inr, Option, some, List, [], ◌∷◌, ◌++◌, map, lookup-In,
  In-values_iff, string_eq, In, In-append, In-map, IsOrder, bind-cases, some_inj,
}
use kube_agentic_networking.Api.{
  Got, got, error, Protocol, http, https, tls, tcp, udp, other, Listener, Gateway,
}
use kube_agentic_networking.Translator.Env.{Translator}
use kube_agentic_networking.Translator.Envoy.{Cluster}
use kube_agentic_networking.Translator.Conflicts.{validate_listeners, group_by_port, ConditionsMap}
use kube_agentic_networking.Translator.ExtAuthz.{
  build_ext_authz_filters, ExtAuthz, build_ext_authz_backend_clusters,
}
use kube_agentic_networking.Translator.ExtAuthz.Services.{GoesTo}
use kube_agentic_networking.Translator.ExtAuthz.Clusters.{Has, build_ext_authz_filters-Backed}
use kube_agentic_networking.Translator.FilterChains.{
  ext_authz, mcp_filter, rbac_filter, router_filter, HttpConnectionManager, http_connection_manager,
  FilterChain, translate_listener_to_filter_chain,
}
use kube_agentic_networking.Translator.FilterChains.Order.{
  translate_listener_to_filter_chain-Ordered,
}
use kube_agentic_networking.Translator.Snapshot.{Context, Work, RoutesByListener, EnvoyListener}
use kube_agentic_networking.Translator.Snapshot.Programming.{process_listeners}
use kube_agentic_networking.Translator.Snapshot.Building.{
  attached, process_gateway, Snapshot, route_config_name, chain_or_nil, replace_chains, port_chains,
  port_listener, close_port, process_port, process_ports, start_work,
  build_envoy_resources_for_gateway,
}
use kube_agentic_networking.Translator.Snapshot.Served.{Serves}
use kube_agentic_networking.Translator.Snapshot.Chains.{
  Chains, nothing, left_out, has_chain, process_listeners-Chains,
}

-- An HTTP filter of the chain asks its service through the cluster of the name.
abbrev pub Checks : FilterChain → String → Type 0
Checks chain name =
    (m : HttpConnectionManager) × (x : ExtAuthz) × In (http_connection_manager m) chain.filters
    × In (ext_authz x) m.http_filters
    × GoesTo x.services name

translated-Has :
    (t : Translator) (l : Listener) (route_name : String) (chain : FilterChain) (name : String)
    → translate_listener_to_filter_chain t l route_name ≡ got (some chain)
    → Checks chain name
    → Has (build_ext_authz_backend_clusters t) name
translated-Has t l route_name chain name e (m, x, i, j, goes) =
    let (ordered, socket, client) =
      translate_listener_to_filter_chain-Ordered t l route_name chain e in
    let (named, (checks, built, filters)) = ordered m i in
    asked checks built (subst (In (ext_authz x)) filters j)
  where
    asked :
        (checks : List ExtAuthz)
        → build_ext_authz_filters t ≡ got checks
        → In (ext_authz x) (mcp_filter ∷ rbac_filter ∷ map ext_authz checks ++ router_filter ∷ [])
        → Has (build_ext_authz_backend_clusters t) name
    asked checks built (inl q) = absurd (cc)
    asked checks built (inr (inl q)) = absurd (cc)
    asked checks built (inr (inr k)) =
        elim ((In-append (ext_authz x) (map ext_authz checks) (router_filter ∷ [])).0 k) [
          | inl there ↦
              let (y, listed, same) = In-map ext_authz (ext_authz x) checks there in
              let q : y ≡ x = cc in
              build_ext_authz_filters-Backed t checks built x name
                (subst (λ z. In z checks) q listed) goes
          | inr last ↦ elim last [ inl q ↦ absurd (cc) | inr none_left ↦ elim none_left [ ] ]
        ]

module _ (ctx : Context) (gateway : Gateway) where
  -- Every filter chain of the Envoy listener is that of some listener.
  abbrev IsTranslated : EnvoyListener → Type 0
  IsTranslated e =
      (chain : FilterChain)
      → In (some chain) e.filter_chains
      → (l : Listener) × (route_name : String) × (translate_listener_to_filter_chain ctx.translator
            l route_name
          ≡ got (some chain))

  Chains-In :
      (validated : ConditionsMap) (route_name : String) (ls : List Listener)
      (cs : List (Option FilterChain)) (chain : FilterChain)
      → Chains ctx gateway validated route_name ls cs
      → In (some chain) cs
      → (l : Listener) × (translate_listener_to_filter_chain ctx.translator l route_name
          ≡ got (some chain))
  Chains-In validated route_name ls cs chain nothing i = elim i [ ]
  Chains-In validated route_name ls cs chain (left_out l ls' cs' out rest) i =
      Chains-In validated route_name ls' cs' chain rest i
  Chains-In validated route_name ls cs chain (has_chain l c ls' cs' programs rest) i = elim i [
    | inl q ↦ (l, programs.2 ∙ ap got (sym q))
    | inr j ↦ Chains-In validated route_name ls' cs' chain rest j
  ]

  chain_or_nil-translated :
      (g : Got (Option FilterChain)) (chain : FilterChain)
      → some chain ≡ chain_or_nil g
      → g ≡ got (some chain)
  chain_or_nil-translated (error msg) chain e = absurd (cc)
  chain_or_nil-translated (got c) chain e = ap got (sym e)

  module _ (validated : ConditionsMap) (port : ℕ) where
    replace_chains-In :
        (l : Listener) (p : Protocol) (ls : List Listener) (cs : List (Option FilterChain))
        (chain : FilterChain)
        → Chains ctx gateway validated (route_config_name port) ls cs
        → In (some chain) (replace_chains ctx gateway port l p cs)
        → (k : Listener) × (translate_listener_to_filter_chain ctx.translator k
              (route_config_name port)
            ≡ got (some chain))
    replace_chains-In l http ls cs chain all i = elim i [
      | inl q ↦ (l, chain_or_nil-translated _ chain q)
      | inr j ↦ elim j [ ]
    ]
    replace_chains-In l https ls cs chain all i = Chains-In validated _ ls cs chain all i
    replace_chains-In l tls ls cs chain all i = Chains-In validated _ ls cs chain all i
    replace_chains-In l tcp ls cs chain all i = Chains-In validated _ ls cs chain all i
    replace_chains-In l udp ls cs chain all i = Chains-In validated _ ls cs chain all i
    replace_chains-In l (other s) ls cs chain all i = Chains-In validated _ ls cs chain all i

    port_chains-In :
        (ls : List Listener) (cs : List (Option FilterChain)) (chain : FilterChain)
        → Chains ctx gateway validated (route_config_name port) ls cs
        → In (some chain) (port_chains ctx gateway port ls cs)
        → (k : Listener) × (translate_listener_to_filter_chain ctx.translator k
              (route_config_name port)
            ≡ got (some chain))
    port_chains-In [] cs chain all i =
        Chains-In validated (route_config_name port) [] cs chain all i
    port_chains-In (l ∷ ls) cs chain all i = replace_chains-In l l.protocol (l ∷ ls) cs chain all i

    port_listener-IsTranslated :
        (ls : List Listener) (cs : List (Option FilterChain)) (e : EnvoyListener)
        → Chains ctx gateway validated (route_config_name port) ls cs
        → In e (port_listener ctx gateway port ls cs)
        → IsTranslated e
    port_listener-IsTranslated ls [] e all i = elim i [ ]
    port_listener-IsTranslated ls (c ∷ cs) e all i = elim i [
      | inl q ↦ λ chain j.
          let (l, t) =
            port_chains-In ls (c ∷ cs) chain all
              (subst (λ z. In (some chain) z.filter_chains) q j) in
          (l, route_config_name port, t)
      | inr j ↦ elim j [ ]
    ]

  -- One port: what was served stays served, and new Envoy listeners have translated filter chains.
  process_port-IsTranslated :
      (by_listener : RoutesByListener) (validated : ConditionsMap) (port : ℕ) (ls : List Listener)
      (w next : Work)
      → process_port ctx gateway by_listener validated port ls w ≡ some next
      → ((name : String) → Serves w.clusters name → Serves next.clusters name)
        × ((e : EnvoyListener)
            → In e next.envoy_listeners
            → In e w.envoy_listeners ⊎ IsTranslated e)
  unfolding process_port close_port
  process_port-IsTranslated by_listener validated port ls w next run =
      let start : Work = record w { virtual_hosts = []; filter_chains = [] } in
      let (done, walked, closed) =
        bind-cases
          (process_listeners ctx gateway by_listener port (route_config_name port) validated ls
            start)
          _ next run in
      let ((same, kept), (cs, chains, grown)) =
        process_listeners-Chains ctx gateway validated (route_config_name port) by_listener port ls
          start done walked in
      subst
        (λ z.
          ((name : String) → Serves w.clusters name → Serves z.clusters name)
          × ((e : EnvoyListener)
              → In e z.envoy_listeners
              → In e w.envoy_listeners ⊎ IsTranslated e))
        (some_inj closed)
        (
          kept,
          λ e i.
              elim ((In-append e done.envoy_listeners
                  (port_listener ctx gateway port ls done.filter_chains)).0
                i) [
                  | inl j ↦ inl (subst (In e) same j)
                  | inr j ↦ inr (
                      port_listener-IsTranslated validated port ls cs e chains
                        (subst (λ z. In e (port_listener ctx gateway port ls z)) grown j))
                ],
        )

  -- The invariant of the loop over the ports.
  abbrev IsChecked : Work → Type 0
  IsChecked w =
      ((name : String)
        → Has (build_ext_authz_backend_clusters ctx.translator) name
        → Serves w.clusters name)
      × ((e : EnvoyListener) → In e w.envoy_listeners → IsTranslated e)

  process_ports-IsChecked :
      (by_listener : RoutesByListener) (validated : ConditionsMap)
      (ports : List (ℕ × List Listener)) (w next : Work)
      → process_ports ctx gateway by_listener validated ports w ≡ some next
      → IsChecked w
      → IsChecked next
  unfolding process_ports
  process_ports-IsChecked by_listener validated [] w next run h = subst IsChecked (some_inj run) h
  process_ports-IsChecked by_listener validated ((port, ls) ∷ ports) w next run (served, all) =
      let (mid, first, later) =
        bind-cases (process_port ctx gateway by_listener validated port ls w) _ next run in
      let (kept, new) = process_port-IsTranslated by_listener validated port ls w mid first in
      process_ports-IsChecked by_listener validated ports mid next later (
        (λ name h. kept name (served name h)),
        (λ e i. elim (new e i) [ inl j ↦ all e j | inr t ↦ t ]),
      )

  process_gateway-IsChecked : (w : Work) → process_gateway ctx gateway ≡ some w → IsChecked w
  unfolding process_gateway start_work
  process_gateway-IsChecked w run =
      process_ports-IsChecked (attached ctx gateway).1
        (validate_listeners ctx.ops ctx.order_validated gateway)
        (ctx.order_ports (group_by_port [] gateway.listeners))
        (start_work ctx gateway (attached ctx gateway).0) w run ((λ name h. h), (λ e i. elim i [ ]))

-- Where the configuration of a Gateway is built and the loop over the map of clusters reaches its entries and no
-- others, every cluster through which an external authorization filter in any filter chain of any of its Envoy
-- listeners asks its service is among its clusters.
pub build_envoy_resources-IsChecked :
    (ctx : Context) (gateway : Gateway) (s : Snapshot)
    → IsOrder ctx.order_clusters
    → build_envoy_resources_for_gateway ctx gateway ≡ some s
    → (e : EnvoyListener) (chain : FilterChain) (name : String) → In e s.listeners
    → In (some chain) e.filter_chains
    → Checks chain name
    → (c : Cluster) × In c s.clusters × (c.name ≡ name)
unfolding build_envoy_resources_for_gateway
build_envoy_resources-IsChecked ctx gateway s clusters run =
    let (w, worked, same) = bind-cases (process_gateway ctx gateway) _ s run in
    let (served, all) = process_gateway-IsChecked ctx gateway w worked in
    subst
      (λ z.
        (e : EnvoyListener) (chain : FilterChain) (name : String)
        → In e z.listeners
        → In (some chain) e.filter_chains
        → Checks chain name
        → (c : Cluster) × In c z.clusters × (c.name ≡ name))
      (some_inj same)
      (λ e chain name i j checks.
        let (l, route_name, t) = all e i chain j in
        let (c, found, named) =
          served name (translated-Has ctx.translator l route_name chain name t checks) in
        (
          c,
          (In-values_iff c (ctx.order_clusters w.clusters)).1
              (name, (clusters w.clusters (name, c)).1 (lookup-In name c w.clusters found)),
          named,
        ))
