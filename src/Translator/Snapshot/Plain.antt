-- ===== src/Translator/Snapshot/Plain.antt =====
-- The Envoy listener of a port: the loop over the ports in buildEnvoyResourcesForGateway of pkg/translator/translator.go.
use mathlib.Core.Path.{subst}
use mathlib.Core.List.{append-nil}
use kube_agentic_networking.Translator.Conflicts.{ConditionsMap}
use kube_agentic_networking.Translator.Snapshot.{RoutesByListener}
use kube_agentic_networking.Translator.Snapshot.Programming.{process_listeners}
use kube_agentic_networking.Translator.Snapshot.Chains.{Chains, process_listeners-Chains}
use kube_agentic_networking.Translator.FilterChains.{create_envoy_address}
use kube_agentic_networking.Common.{
  ℕ, String, ◌≢◌, bind-cases, some_inj, ◌++◌, concat, decimal, ◌≡◌, refl, sym, ap, ◌∙◌, ◌⊎◌, inl,
  inr, Option, none, some, List, [], ◌∷◌, if◌then◌else◌,
}
use kube_agentic_networking.Api.{
  Protocol, Got, got, error, Protocol, http, https, tls, tcp, udp, other, Listener, Gateway,
}
use kube_agentic_networking.Translator.FilterChains.{
  FilterChain, is_tls, build_downstream_tls_context, translate_listener_to_filter_chain,
}
use kube_agentic_networking.Translator.FilterChains.Order.{
  translate_listener_to_filter_chain-Ordered,
}
use kube_agentic_networking.Translator.Snapshot.{Context, Work, EnvoyListener}
use kube_agentic_networking.Translator.Snapshot.Building.{
  chain_or_nil, route_config_name, replace_chains, port_listener, close_port, process_port,
}

module _ (ctx : Context) (gateway : Gateway) (port : ℕ) (l : Listener) where
  -- One filter chain, which is that of the listener, or nil where it has none; and it has no TLS.
  abbrev pub OnlyPlain : List (Option FilterChain) → Type 0
  OnlyPlain chains =
      (c : Option FilterChain) × (chains ≡ c ∷ [])
      × ((found : Option FilterChain)
          → translate_listener_to_filter_chain ctx.translator l (route_config_name port) ≡ got found
          → c ≡ found)
      × ((msg : String)
          → translate_listener_to_filter_chain ctx.translator l (route_config_name port) ≡ error msg
          → c ≡ none)
      × ((chain : FilterChain) → c ≡ some chain → chain.transport_socket ≡ none)

  http_chain-plain :
      (g : Got (Option FilterChain))
      → translate_listener_to_filter_chain ctx.translator l (route_config_name port) ≡ g
      → l.protocol ≡ http
      → (chain : FilterChain) → chain_or_nil g ≡ some chain
      → chain.transport_socket ≡ none
  http_chain-plain (error msg) e h chain q = absurd (cc)
  http_chain-plain (got none) e h chain q = absurd (cc)
  http_chain-plain (got (some found)) e h chain q =
      let (ordered, socket, client) =
        translate_listener_to_filter_chain-Ordered ctx.translator l (route_config_name port) found
          e in
      let off : (if is_tls l.protocol then some build_downstream_tls_context else none) ≡ none =
        ap (λ p. if is_tls p then some build_downstream_tls_context else none) h in
      let same : found ≡ chain = cc in subst (λ z. z.transport_socket ≡ none) same (socket ∙ off)

  replace_chains-OnlyPlain :
      (chains : List (Option FilterChain))
      → l.protocol ≡ http
      → OnlyPlain (replace_chains ctx gateway port l l.protocol chains)
  replace_chains-OnlyPlain chains h =
      subst (λ p. OnlyPlain (replace_chains ctx gateway port l p chains)) (sym h)
        (
          _,
          refl,
          (λ found e. ap chain_or_nil e),
          (λ msg e. ap chain_or_nil e),
          http_chain-plain _ refl h,
        )

  replace_chains-kept :
      (p : Protocol) (chains : List (Option FilterChain))
      → p ≢ http
      → replace_chains ctx gateway port l p chains ≡ chains
  replace_chains-kept http chains h = absurd (h refl)
  replace_chains-kept https chains h = refl
  replace_chains-kept tls chains h = refl
  replace_chains-kept tcp chains h = refl
  replace_chains-kept udp chains h = refl
  replace_chains-kept (other name) chains h = refl

  -- The Envoy listener that the port gets for the filter chains of its listeners, if it gets one.
  abbrev pub Opened : List EnvoyListener → List (Option FilterChain) → List EnvoyListener → Type 0
  Opened before chains after =
      ((chains ≡ []) × (after ≡ before))
      ⊎ (chains ≢ [])
        × (e : EnvoyListener) × (after ≡ before ++ e ∷ [])
        × (e.name ≡ concat ("listener-" ∷ decimal port ∷ []))
        × (e.address ≡ create_envoy_address port)
        × (l.protocol ≢ http → e.filter_chains ≡ chains)
        × (l.protocol ≡ http → OnlyPlain e.filter_chains)

  port_listener-Opened :
      (ls : List Listener) (before : List EnvoyListener) (chains : List (Option FilterChain))
      → Opened before chains (before ++ port_listener ctx gateway port (l ∷ ls) chains)
  port_listener-Opened ls before [] = inl (refl, append-nil before)
  port_listener-Opened ls before (c ∷ cs) = inr (
    (λ e. cc),
    _,
    refl,
    refl,
    refl,
    replace_chains-kept l.protocol (c ∷ cs),
    replace_chains-OnlyPlain (c ∷ cs),
  )

  -- Where a port with the first listener `l` is processed, the listeners of the port have, in order, one filter
  -- chain for each that has valid route kinds, is not in conflict and can be translated, and none
  -- for the others. Without any, the port gets no Envoy listener. With some, it gets one, named "listener-" and
  -- the port: where `l` is not of HTTP it has all these filter chains, and where `l` is of HTTP it has one
  -- filter chain, that of `l` and without TLS, or nil where `l` has none, whatever the others are.
  pub process_port-Opened :
      (by_listener : RoutesByListener) (validated : ConditionsMap) (ls : List Listener)
      (w next : Work)
      → process_port ctx gateway by_listener validated port (l ∷ ls) w ≡ some next
      → (chains : List (Option FilterChain)) × Chains ctx gateway validated
          (route_config_name port)
          (l ∷ ls)
          chains
        × Opened w.envoy_listeners chains next.envoy_listeners
  unfolding process_port close_port
  process_port-Opened by_listener validated ls w next run =
      let start : Work = record w { virtual_hosts = []; filter_chains = [] } in
      let (done, walked, closed) =
        bind-cases
          (process_listeners ctx gateway by_listener port (route_config_name port) validated
            (l ∷ ls) start)
          _ next run in
      let ((same, kept), (cs, chains, grown)) =
        process_listeners-Chains ctx gateway validated (route_config_name port) by_listener port
          (l ∷ ls) start done walked in
      (
        cs,
        chains,
        subst (λ z. Opened w.envoy_listeners cs z.envoy_listeners) (some_inj closed)
            (subst
              (λ z.
                Opened w.envoy_listeners cs
                  (z ++ port_listener ctx gateway port (l ∷ ls) done.filter_chains))
              (sym same)
              (subst
                (λ z.
                  Opened w.envoy_listeners cs
                    (w.envoy_listeners ++ port_listener ctx gateway port (l ∷ ls) z))
                (sym grown) (port_listener-Opened ls w.envoy_listeners cs))),
      )
