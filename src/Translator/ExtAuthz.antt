-- ===== src/Translator/ExtAuthz.antt =====
-- External authorization: buildExtAuthzFilters and buildExtAuthzConfig of pkg/translator/listener.go,
-- buildExtAuthzBackendClusters, clusterNameForBackendRefAndProtocol and fqdnFromBackendRef of
-- pkg/translator/translator.go. Sizes and ports are not negative and below 2^32.
pub mod Shadow
pub mod Services
pub mod Unique
pub mod Clusters
mod Examples
use kube_agentic_networking.Common.{
  ℕ, String, Bool, true, false, not, Option, none, some, List, [], ◌∷◌, ◌++◌, ◌==◌, if◌then◌else◌,
  or_default, any, is_empty, concat, decimal, to_lower, lookup, insert, string_eq,
}
use kube_agentic_networking.Api.{
  Got, got, error, XAccessPolicy, AccessRule, AuthorizationRule, AuthBackendRef, AuthProtocol, grpc,
  http_auth, other_protocol, HttpAuthConfig, ExternalAuthFilter,
}
use kube_agentic_networking.Translator.Env.{Translator}
use kube_agentic_networking.Translator.Envoy.{Cluster, strict_dns, MetadataMatcher, present_match}
use kube_agentic_networking.Translator.Backends.{uint32, service_fqdn}

unfoldable pub fqdn_from_backend_ref : AuthBackendRef → String → String
fqdn_from_backend_ref ref default_namespace =
    service_fqdn ref.name (or_default default_namespace ref.namespace)

abbrev pub protocol_text : AuthProtocol → String
protocol_text grpc = "GRPC"
protocol_text http_auth = "HTTP"
protocol_text (other_protocol s) = s

unfoldable pub cluster_name_for_backend_ref_and_protocol : AuthBackendRef → String → String → String
unfolding fqdn_from_backend_ref to_lower decimal
cluster_name_for_backend_ref_and_protocol ref default_namespace protocol =
    let name =
      concat (fqdn_from_backend_ref ref default_namespace ∷ "-" ∷ to_lower protocol ∷ []) in
    elim ref.port [ none ↦ name | some port ↦ concat (name ∷ ":" ∷ decimal port ∷ []) ]

-- The service that is asked: a cluster with an authority, or a URI with its path prefix and the
-- response headers that are let through.
pub data AuthService : Type 0 where
  no_service : AuthService
  grpc_service : String → String → AuthService
  http_service : (uri cluster path_prefix : String) → List String → AuthService

pub record ExtAuthz : Type 0 where
  pub failure_mode_allow : Bool
  pub filter_enabled_metadata : MetadataMatcher
  pub metadata_context_namespaces : List String
  pub services : AuthService
  pub allowed_headers : List String
  pub max_request_bytes : Option ℕ
  pub allow_partial_message : Bool

unfoldable pub build_ext_authz_config : String → ExtAuthz
build_ext_authz_config hash = record {
  failure_mode_allow = false;
  filter_enabled_metadata = record {
    filter = "envoy.filters.http.rbac";
    path = concat ("access_policy_ext_authz_" ∷ hash ∷ "_shadow_effective_policy_id" ∷ []) ∷ [];
    value = present_match true;
  };
  metadata_context_namespaces = "mcp_proxy" ∷ "envoy.filters.http.jwt_authn" ∷ [];
  services = no_service;
  allowed_headers = [];
  max_request_bytes = none;
  allow_partial_message = false;
}

abbrev pub with_namespace : Option String → String → String
with_namespace none uri = uri
with_namespace (some ns) uri = concat (uri ∷ "." ∷ ns ∷ ".svc.cluster.local" ∷ [])

abbrev pub with_port : Option ℕ → String → String
with_port none uri = uri
with_port (some port) uri = concat (uri ∷ ":" ∷ decimal port ∷ [])

abbrev pub auth_uri : AuthBackendRef → String
auth_uri ref =
    with_port ref.port (with_namespace ref.namespace (concat ("http://" ∷ ref.name ∷ [])))

-- The kind of the reference is one that the HTTP protocol supports.
abbrev pub is_service_kind : Option String → Bool
is_service_kind none = true
is_service_kind (some kind) = kind == "Service"

-- The switch on the protocol; `none` skips the rule.
abbrev pub with_service :
    ExternalAuthFilter → String → String → AuthProtocol → ExtAuthz → Option ExtAuthz
with_service f namespace cluster grpc proto = some (record proto {
  services = grpc_service cluster (fqdn_from_backend_ref f.backend_ref namespace);
  allowed_headers = or_default [] f.grpc_config;
})
with_service f namespace cluster http_auth proto = elim f.http_config [
  | none ↦ some proto
  | some config ↦
      if not (is_service_kind f.backend_ref.kind)
      then none
      else some (record proto {
        services =
            http_service (auth_uri f.backend_ref) cluster config.path
              config.allowed_response_headers;
        allowed_headers = config.allowed_headers;
      })
]
with_service f namespace cluster (other_protocol s) proto = some proto

abbrev pub with_body : Option ℕ → ExtAuthz → ExtAuthz
with_body none proto = proto
with_body (some size) proto = record proto {
  max_request_bytes = some (uint32 size);
  allow_partial_message = true;
}

unfoldable pub ext_authz_filter : String → ExternalAuthFilter → String → Option ExtAuthz
unfolding build_ext_authz_config cluster_name_for_backend_ref_and_protocol fqdn_from_backend_ref
ext_authz_filter namespace f hash =
    let cluster =
      cluster_name_for_backend_ref_and_protocol f.backend_ref namespace
        (protocol_text f.protocol) in
    elim (with_service f namespace cluster f.protocol (build_ext_authz_config hash)) [
      | none ↦ none
      | some proto ↦ some (with_body f.forward_body proto)
    ]

abbrev pub external_filter : AccessRule → Option ExternalAuthFilter
external_filter rule = elim rule.authorization [ none ↦ none | some a ↦ a.filter ]

-- `hashes` and `filters`
pub record Filters : Type 0 where
  pub hashes : List String
  pub filters : List ExtAuthz

abbrev pub push : Option ExtAuthz → List ExtAuthz → List ExtAuthz
push none filters = filters
push (some f) filters = filters ++ f ∷ []

abbrev pub add_digest : String → ExternalAuthFilter → Got String → Filters → Filters
add_digest namespace f (error msg) st = st
add_digest namespace f (got hash) st = if any (λ h. h == hash) st.hashes then st else record {
  hashes = st.hashes ++ hash ∷ [];
  filters = push (ext_authz_filter namespace f hash) st.filters;
}

module _ (t : Translator) where
  -- The body of the inner loop, on the external filter of the rule.
  abbrev pub add_asked : String → Filters → Option ExternalAuthFilter → Filters
  add_asked namespace st none = st
  add_asked namespace st (some f) = add_digest namespace f (t.external_auth_digest f) st

  unfoldable pub add_ext_authz : String → Filters → AccessRule → Filters
  unfolding ext_authz_filter
  add_ext_authz namespace st rule = add_asked namespace st (external_filter rule)

  unfoldable pub add_rules_of : String → Filters → List AccessRule → Filters
  unfolding add_ext_authz
  add_rules_of namespace st [] = st
  add_rules_of namespace st (rule ∷ rest) =
      add_rules_of namespace (add_ext_authz namespace st rule) rest

  unfoldable pub add_policies_of : Filters → List XAccessPolicy → Filters
  unfolding add_rules_of
  add_policies_of st [] = st
  add_policies_of st (p ∷ rest) = add_policies_of (add_rules_of p.meta.namespace st p.rules) rest

  unfoldable pub build_ext_authz_filters : Got (List ExtAuthz)
  unfolding add_policies_of
  build_ext_authz_filters = elim t.access_policies [
    | error msg ↦ error (concat ("failed to list AccessPolicies: " ∷ msg ∷ []))
    | got policies ↦ got (add_policies_of (record { hashes = []; filters = [] }) policies).filters
  ]

  abbrev pub is_grpc : AuthProtocol → Bool
  is_grpc grpc = true
  is_grpc _ = false

  unfoldable pub auth_cluster : String → ExternalAuthFilter → Cluster
  unfolding cluster_name_for_backend_ref_and_protocol fqdn_from_backend_ref
  auth_cluster namespace f = record {
    name =
        cluster_name_for_backend_ref_and_protocol f.backend_ref namespace
          (protocol_text f.protocol);
    connect_timeout_seconds = 5;
    discovery_type = strict_dns;
    host = fqdn_from_backend_ref f.backend_ref namespace;
    port = uint32 (or_default 5000 f.backend_ref.port);
    tls_sni = none;
    http2 = is_grpc f.protocol;
  }

  abbrev pub add_if_absent : Cluster → List (String × Cluster) → List (String × Cluster)
  add_if_absent c clusters = elim (lookup c.name clusters) [
    | some _ ↦ clusters
    | none ↦ insert c.name c clusters
  ]

  unfoldable pub add_rule_clusters :
      String → List (String × Cluster) → List AccessRule → List (String × Cluster)
  unfolding auth_cluster lookup insert
  add_rule_clusters namespace clusters [] = clusters
  add_rule_clusters namespace clusters (rule ∷ rest) =
      add_rule_clusters namespace
        (elim (external_filter rule) [
          | none ↦ clusters
          | some f ↦ add_if_absent (auth_cluster namespace f) clusters
        ])
        rest

  unfoldable pub add_policy_clusters :
      List (String × Cluster) → List XAccessPolicy → List (String × Cluster)
  unfolding add_rule_clusters
  add_policy_clusters clusters [] = clusters
  add_policy_clusters clusters (p ∷ rest) =
      add_policy_clusters (add_rule_clusters p.meta.namespace clusters p.rules) rest

  unfoldable pub build_ext_authz_backend_clusters : List (String × Cluster)
  unfolding add_policy_clusters
  build_ext_authz_backend_clusters = elim t.access_policies [
    | error msg ↦ []
    | got policies ↦ add_policy_clusters [] policies
  ]
