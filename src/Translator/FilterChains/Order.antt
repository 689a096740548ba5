-- ===== src/Translator/FilterChains/Order.antt =====
-- The order of filters and the TLS of filter chains: pkg/translator/listener.go.
use mathlib.Core.Path.{subst}
use kube_agentic_networking.Common.{
  if◌then◌else◌, String, if◌then◌else◌, ◌≡◌, ◌≢◌, inl, inr, refl, sym, Bool, true, false, Option,
  none, some, List, [], ◌∷◌, ◌++◌, map, In,
}
use kube_agentic_networking.Api.{
  Got, got, error, Protocol, http, https, tls, tcp, udp, other, Listener,
}
use kube_agentic_networking.Translator.Env.{Translator}
use kube_agentic_networking.Translator.Hostnames.{set_hostname}
use kube_agentic_networking.Translator.ExtAuthz.{ExtAuthz, build_ext_authz_filters}
use kube_agentic_networking.Translator.FilterChains.{
  build_udp_filter_chain, build_tcp_filter_chain, plain_chain, build_local_reply_config, tcp_proxy,
  udp_proxy, HttpFilter, mcp_filter, rbac_filter, router_filter, ext_authz, HttpConnectionManager,
  NetworkFilter, http_connection_manager, FilterChain, DownstreamTlsContext, build_http_filters,
  build_http_filter_chain, http_chain, finish_chain, with_tls, with_server_name, is_tls,
  chain_by_protocol, translate_listener_to_filter_chain, build_downstream_tls_context,
}

got_some-inj :
    {c d : FilterChain} → ◌≡◌ {A = Got (Option FilterChain)} (got (some c)) (got (some d)) → c ≡ d
got_some-inj h = cc

-- The filters of a connection manager: the protocol filter, then RBAC, then external authorization for
-- each digest, and the router last.
abbrev pub Ordered : Translator → String → FilterChain → Type 0
Ordered t route_name chain =
    (m : HttpConnectionManager)
    → In (http_connection_manager m) chain.filters
    → (m.route_config_name ≡ route_name)
      × ((checks : List ExtAuthz) × (build_ext_authz_filters t ≡ got checks)
          × (m.http_filters
              ≡ mcp_filter ∷ rbac_filter ∷ map ext_authz checks ++ router_filter ∷ []))

http_chain-Ordered :
    (t : Translator) (l : Listener) (route_name : String) (chain : FilterChain)
    → build_http_filter_chain t l route_name ≡ got (some chain)
    → Ordered t route_name chain
unfolding build_http_filter_chain build_http_filters
http_chain-Ordered t l route_name chain h = found (build_ext_authz_filters t) refl h
  where
    manager : List ExtAuthz → HttpConnectionManager
    manager checks = record {
      stat_prefix = l.name;
      local_reply_config = build_local_reply_config;
      route_config_name = route_name;
      http_filters = mcp_filter ∷ rbac_filter ∷ map ext_authz checks ++ router_filter ∷ [];
    }

    found :
        (g : Got (List ExtAuthz))
        → build_ext_authz_filters t ≡ g
        → http_chain l route_name (elim g [
          | error msg ↦ error msg
          | got checks ↦ got (mcp_filter ∷ rbac_filter ∷ map ext_authz checks ++ router_filter ∷ [])
        ])
          ≡ got (some chain)
        → Ordered t route_name chain
    found (error msg) e h = absurd (cc)
    found (got checks) e h =
        let same : plain_chain (http_connection_manager (manager checks)) ≡ chain = cc in
        subst (Ordered t route_name) same (λ m i. elim i [
          | inl q ↦
              let r : manager checks ≡ m = cc in
              subst
                (λ z.
                  (z.route_config_name ≡ route_name)
                  × ((cs : List ExtAuthz) × (build_ext_authz_filters t ≡ got cs)
                      × (z.http_filters
                          ≡ mcp_filter ∷ rbac_filter ∷ map ext_authz cs ++ router_filter ∷ [])))
                r (refl, (checks, e, refl))
          | inr j ↦ elim j [ ]
        ])

plain-Ordered :
    (t : Translator) (route_name : String) (f : NetworkFilter) (chain : FilterChain)
    → ((m : HttpConnectionManager) → f ≢ http_connection_manager m)
    → plain_chain f ≡ chain
    → Ordered t route_name chain
plain-Ordered t route_name f chain differs e =
    subst (Ordered t route_name) e
      (λ m i. elim i [ inl q ↦ absurd (differs m (sym q)) | inr j ↦ elim j [ ] ])

chain-Ordered :
    (t : Translator) (l : Listener) (route_name : String) (p : Protocol) (chain : FilterChain)
    → chain_by_protocol t l route_name p ≡ got (some chain)
    → Ordered t route_name chain
unfolding build_tcp_filter_chain build_udp_filter_chain
chain-Ordered t l route_name http chain h = http_chain-Ordered t l route_name chain h
chain-Ordered t l route_name https chain h = http_chain-Ordered t l route_name chain h
chain-Ordered t l route_name tcp chain h =
    plain-Ordered t route_name (tcp_proxy l.name "some_static_cluster") chain (λ m e. cc) (cc)
chain-Ordered t l route_name tls chain h =
    plain-Ordered t route_name (tcp_proxy l.name "some_static_cluster") chain (λ m e. cc) (cc)
chain-Ordered t l route_name udp chain h =
    plain-Ordered t route_name (udp_proxy l.name "some_udp_cluster") chain (λ m e. cc) (cc)
chain-Ordered t l route_name (other s) chain h = absurd (cc)

server_name-filters :
    (o : Option String) (chain : FilterChain) → (with_server_name o chain).filters ≡ chain.filters
server_name-filters none chain = refl
server_name-filters (some h) chain = refl

-- The chain that is finished has the filters it had, and TLS by the flag, where it had none.
with_tls-chain :
    (l : Listener) (b : Bool) (chain : FilterChain)
    → ((with_tls l b chain).filters ≡ chain.filters)
      × (chain.transport_socket ≡ none
          → (with_tls l b chain).transport_socket
            ≡ (if b then some build_downstream_tls_context else none))
with_tls-chain l false chain = (refl, λ e. e)
with_tls-chain l true chain = (server_name-filters (set_hostname l.hostname) chain, λ e. refl)

plain_chain-socket :
    (f : NetworkFilter) (chain : FilterChain)
    → plain_chain f ≡ chain
    → chain.transport_socket ≡ none
plain_chain-socket f chain e = subst (λ z. z.transport_socket ≡ none) e refl

http_chain-socket :
    (t : Translator) (l : Listener) (route_name : String) (chain : FilterChain)
    → build_http_filter_chain t l route_name ≡ got (some chain)
    → chain.transport_socket ≡ none
unfolding build_http_filter_chain build_local_reply_config
http_chain-socket t l route_name chain h = found (build_http_filters t) h
  where
    found :
        (g : Got (List HttpFilter))
        → http_chain l route_name g ≡ got (some chain)
        → chain.transport_socket ≡ none
    found (error msg) h = absurd (cc)
    found (got fs) h = plain_chain-socket _ chain (got_some-inj h)

chain-plain :
    (t : Translator) (l : Listener) (route_name : String) (p : Protocol) (chain : FilterChain)
    → chain_by_protocol t l route_name p ≡ got (some chain)
    → chain.transport_socket ≡ none
unfolding build_tcp_filter_chain build_udp_filter_chain
chain-plain t l route_name http chain h = http_chain-socket t l route_name chain h
chain-plain t l route_name https chain h = http_chain-socket t l route_name chain h
chain-plain t l route_name tcp chain h = plain_chain-socket _ chain (got_some-inj h)
chain-plain t l route_name tls chain h = plain_chain-socket _ chain (got_some-inj h)
chain-plain t l route_name udp chain h = plain_chain-socket _ chain (got_some-inj h)
chain-plain t l route_name (other s) chain h = absurd (cc)

-- The TLS context of HTTPS and TLS listeners, none of the others.
abbrev pub tls_of : Listener → Option DownstreamTlsContext
tls_of l = if is_tls l.protocol then some build_downstream_tls_context else none

-- Where a listener is translated to a filter chain, every HTTP connection manager of the chain has the
-- given route name and the filters for MCP, for RBAC, for the external authorization of each of the
-- translator's checks, and the router, in that order; and the chain has a TLS context, which demands a
-- client certificate, exactly where the listener's protocol is HTTPS or TLS.
pub translate_listener_to_filter_chain-Ordered :
    (t : Translator) (l : Listener) (route_name : String) (chain : FilterChain)
    → translate_listener_to_filter_chain t l route_name ≡ got (some chain)
    → Ordered t route_name chain
      × (chain.transport_socket ≡ tls_of l)
      × (build_downstream_tls_context.require_client_certificate ≡ true)
unfolding translate_listener_to_filter_chain build_downstream_tls_context
translate_listener_to_filter_chain-Ordered t l route_name chain h =
    finished (chain_by_protocol t l route_name l.protocol) refl h
  where
    finished :
        (g : Got (Option FilterChain))
        → chain_by_protocol t l route_name l.protocol ≡ g
        → finish_chain l g ≡ got (some chain)
        → Ordered t route_name chain
          × (chain.transport_socket ≡ tls_of l)
          × (build_downstream_tls_context.require_client_certificate ≡ true)
    finished (error msg) e h = absurd (cc)
    finished (got none) e h = absurd (cc)
    finished (got (some c)) e h =
        let (kept, socket) = with_tls-chain l (is_tls l.protocol) c in
        subst
          (λ z.
            Ordered t route_name z
            × (z.transport_socket ≡ tls_of l)
            × (build_downstream_tls_context.require_client_certificate ≡ true))
          (got_some-inj h)
          (
            (λ m i.
                chain-Ordered t l route_name l.protocol c e m
                  (subst (In (http_connection_manager m)) kept i)),
            socket (chain-plain t l route_name l.protocol c e),
            refl,
          )
