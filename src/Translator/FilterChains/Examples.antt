-- ===== src/Translator/FilterChains/Examples.antt =====
-- Tests and witnesses of filter chains.
use kube_agentic_networking.Common.{◌++◌, map, ◌≡◌, refl, true, some, List, [], ◌∷◌}
use kube_agentic_networking.Api.{got, https, Listener}
use kube_agentic_networking.Translator.Samples.{sample, web, auth_filter}
use kube_agentic_networking.Translator.ExtAuthz.{ExtAuthz, push, ext_authz_filter}
use kube_agentic_networking.Translator.FilterChains.{
  ext_authz, FilterChain, mcp_filter, rbac_filter, router_filter, http_connection_manager,
  build_local_reply_config, build_downstream_tls_context, translate_listener_to_filter_chain,
}
use kube_agentic_networking.Translator.FilterChains.Order.{
  Ordered, tls_of, translate_listener_to_filter_chain-Ordered,
}

abbrev secure : Listener
secure = record web { protocol = https }

abbrev checks : List ExtAuthz
checks = push (ext_authz_filter "shop" auth_filter "c0ffee") []

abbrev secure_chain : FilterChain
secure_chain = record {
  filters =
      http_connection_manager (record {
        stat_prefix = "web";
        local_reply_config = build_local_reply_config;
        route_config_name = "route-443";
        http_filters = mcp_filter ∷ rbac_filter ∷ map ext_authz checks ++ router_filter ∷ [];
      })
      ∷ [];
  server_names = some ("*.example.com" ∷ []);
  transport_socket = some build_downstream_tls_context;
}

secure-translated :
    translate_listener_to_filter_chain sample secure "route-443" ≡ got (some secure_chain)
unfolding translate_listener_to_filter_chain
secure-translated = refl

translate_listener_to_filter_chain-Ordered_example :
    Ordered sample "route-443" secure_chain
    × (secure_chain.transport_socket ≡ tls_of secure)
    × (build_downstream_tls_context.require_client_certificate ≡ true)
translate_listener_to_filter_chain-Ordered_example =
    translate_listener_to_filter_chain-Ordered sample secure "route-443" secure_chain
      secure-translated
