-- ===== src/Translator/FilterChains.antt =====
-- Filter chains: translateListenerToFilterChain and the builders that it calls, in
-- pkg/translator/listener.go. Packing a message into an `Any` succeeds.
--
-- A nil filter chain, which a listener of an unknown protocol gets without an error, is `none`.
pub mod Order
mod Examples
use kube_agentic_networking.Common.{
  ℕ, String, Bool, true, false, Option, none, some, List, [], ◌∷◌, ◌++◌, map, concat,
}
use kube_agentic_networking.Api.{
  Got, got, error, Protocol, http, https, tls, tcp, udp, other, Listener,
}
use kube_agentic_networking.Translator.Env.{Translator}
use kube_agentic_networking.Translator.Envoy.{HeaderMatcher, present}
use kube_agentic_networking.Translator.Hostnames.{set_hostname}
use kube_agentic_networking.Translator.ExtAuthz.{ExtAuthz, build_ext_authz_filters}

-- A mapper of local replies: the responses that it takes, by their status and a header, and the
-- status and the body, as the fields of a JSON object, that it gives them.
pub record ResponseMapper : Type 0 where
  pub status_equals : ℕ
  pub header : HeaderMatcher
  pub status_code : ℕ
  pub json_rpc : String
  pub json_id : String
  pub error_code : ℕ
  pub error_message : String
  pub content_type : String

unfoldable pub build_local_reply_config : List ResponseMapper
build_local_reply_config =
    record {
      status_equals = 403;
      header = record { name = "WWW-Authenticate"; specifier = present false };
      status_code = 200;
      json_rpc = "2.0";
      json_id = "%DYNAMIC_METADATA(mcp_proxy:id)%";
      error_code = 403;
      error_message = "Access to this tool is forbidden.";
      content_type = "application/json";
    }
    ∷ []

-- The filters of HTTP; the configurations of all but `ext_authz` are empty.
pub data HttpFilter : Type 0 where
  mcp_filter rbac_filter router_filter : HttpFilter
  ext_authz : ExtAuthz → HttpFilter

pub record HttpConnectionManager : Type 0 where
  pub stat_prefix : String
  pub local_reply_config : List ResponseMapper
  pub route_config_name : String
  pub http_filters : List HttpFilter

-- The network filters; TCP and UDP proxies have a prefix and a cluster.
pub data NetworkFilter : Type 0 where
  http_connection_manager : HttpConnectionManager → NetworkFilter
  tcp_proxy udp_proxy : (stat_prefix cluster : String) → NetworkFilter

-- A secret's name and the path of its file.
pub record SdsSecret : Type 0 where
  pub name : String
  pub path : String

pub record DownstreamTlsContext : Type 0 where
  pub certificate : SdsSecret
  pub validation : SdsSecret
  pub require_client_certificate : Bool

pub record FilterChain : Type 0 where
  pub filters : List NetworkFilter
  pub server_names : Option (List String)
  pub transport_socket : Option DownstreamTlsContext

abbrev pub plain_chain : NetworkFilter → FilterChain
plain_chain f = record { filters = f ∷ []; server_names = none; transport_socket = none }

unfoldable pub build_http_filters : Translator → Got (List HttpFilter)
unfolding build_ext_authz_filters
build_http_filters t = elim (build_ext_authz_filters t) [
  | error msg ↦ error msg
  | got filters ↦ got (mcp_filter ∷ rbac_filter ∷ map ext_authz filters ++ router_filter ∷ [])
]

abbrev pub http_chain : Listener → String → Got (List HttpFilter) → Got (Option FilterChain)
http_chain l route_name (error msg) = error msg
http_chain l route_name (got filters) = got (
    some (
      plain_chain (
        http_connection_manager (record {
          stat_prefix = l.name;
          local_reply_config = build_local_reply_config;
          route_config_name = route_name;
          http_filters = filters;
        }))))

unfoldable pub build_http_filter_chain : Translator → Listener → String → Got (Option FilterChain)
unfolding build_http_filters build_local_reply_config
build_http_filter_chain t l route_name = http_chain l route_name (build_http_filters t)

unfoldable pub build_tcp_filter_chain : Listener → FilterChain
build_tcp_filter_chain l = plain_chain (tcp_proxy l.name "some_static_cluster")

unfoldable pub build_udp_filter_chain : Listener → FilterChain
build_udp_filter_chain l = plain_chain (udp_proxy l.name "some_udp_cluster")

-- The switch on the protocol.
abbrev pub chain_by_protocol : Translator → Listener → String → Protocol → Got (Option FilterChain)
chain_by_protocol t l route_name http = build_http_filter_chain t l route_name
chain_by_protocol t l route_name https = build_http_filter_chain t l route_name
chain_by_protocol t l route_name tcp = got (some (build_tcp_filter_chain l))
chain_by_protocol t l route_name tls = got (some (build_tcp_filter_chain l))
chain_by_protocol t l route_name udp = got (some (build_udp_filter_chain l))
chain_by_protocol t l route_name (other s) = got none

abbrev pub sds_secret : String → String → SdsSecret
sds_secret name file = record { name = name; path = concat ("/etc/envoy/sds" ∷ "/" ∷ file ∷ []) }

unfoldable pub build_downstream_tls_context : DownstreamTlsContext
build_downstream_tls_context = record {
  certificate = sds_secret "spiffe_identity" "spiffe_identity.yaml";
  validation = sds_secret "spiffe_trust" "spiffe_trust.yaml";
  require_client_certificate = true;
}

abbrev pub is_tls : Protocol → Bool
is_tls https = true
is_tls tls = true
is_tls _ = false

-- The server names of a listener that has a hostname.
abbrev pub with_server_name : Option String → FilterChain → FilterChain
with_server_name none chain = chain
with_server_name (some hostname) chain = record chain { server_names = some (hostname ∷ []) }

abbrev pub with_tls : Listener → Bool → FilterChain → FilterChain
with_tls l false chain = chain
with_tls l true chain = record (with_server_name (set_hostname l.hostname) chain) {
  transport_socket = some build_downstream_tls_context;
}

abbrev pub finish_chain : Listener → Got (Option FilterChain) → Got (Option FilterChain)
finish_chain l (error msg) = error msg
finish_chain l (got none) = got none
finish_chain l (got (some chain)) = got (some (with_tls l (is_tls l.protocol) chain))

unfoldable pub translate_listener_to_filter_chain :
    Translator → Listener → String → Got (Option FilterChain)
unfolding build_http_filter_chain build_tcp_filter_chain build_udp_filter_chain
    build_downstream_tls_context
translate_listener_to_filter_chain t l route_name =
    finish_chain l (chain_by_protocol t l route_name l.protocol)

-- createEnvoyAddress and createListenerFilters: a TCP socket, and the names of the filters
pub record Address : Type 0 where
  pub address : String
  pub port_value : ℕ

unfoldable pub create_envoy_address : ℕ → Address
create_envoy_address port = record { address = "0.0.0.0"; port_value = port }

unfoldable pub create_listener_filters : List String
create_listener_filters = "envoy.filters.listener.tls_inspector" ∷ []
