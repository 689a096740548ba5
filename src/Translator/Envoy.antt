-- ===== src/Translator/Envoy.antt =====
-- The parts of Envoy's configuration that the program builds. A message that is packed into an
-- `Any` is modelled by the message itself.
use kube_agentic_networking.Common.{ℕ, String, Bool, List, Option}

pub data PathSpecifier : Type 0 where
  path prefix path_separated_prefix safe_regex : String → PathSpecifier

pub data HeaderSpecifier : Type 0 where
  string_exact string_regex : String → HeaderSpecifier
  present : Bool → HeaderSpecifier

pub record HeaderMatcher : Type 0 where
  pub name : String
  pub specifier : HeaderSpecifier

pub record QueryParameterMatcher : Type 0 where
  pub name : String
  pub exact_value : String

pub record RouteMatch : Type 0 where
  pub path_specifier : PathSpecifier
  pub headers : List HeaderMatcher
  pub query_parameters : List QueryParameterMatcher

pub data RedirectCode : Type 0 where
  moved_permanently permanent_found see_other temporary_redirect permanent_redirect : RedirectCode

pub record RedirectAction : Type 0 where
  pub host_redirect : String
  pub response_code : RedirectCode

pub data AppendAction : Type 0 where
  overwrite_if_exists_or_add append_if_exists_or_add : AppendAction

pub record HeaderValueOption : Type 0 where
  pub key : String
  pub value : String
  pub append_action : AppendAction

-- Access control.
pub data ValueMatcher : Type 0 where
  string_match : String → ValueMatcher
  or_match : List String → ValueMatcher
  present_match : Bool → ValueMatcher

pub record MetadataMatcher : Type 0 where
  pub filter : String
  pub path : List String
  pub value : ValueMatcher

-- `and_ids` of header principals is the only nested principal that the program builds, and
-- `and_rules` of metadata permissions the only nested permission.
pub data Principal : Type 0 where
  any_principal : Principal
  authenticated : String → Principal
  and_headers : List HeaderMatcher → Principal

pub data Permission : Type 0 where
  any_permission : Permission
  header_permission : HeaderMatcher → Permission
  sourced_metadata : MetadataMatcher → Permission
  and_rules : List MetadataMatcher → Permission

pub record Policy : Type 0 where
  pub principals : List Principal
  pub permissions : List Permission

pub data RbacAction : Type 0 where
  allow deny : RbacAction

pub record RbacRules : Type 0 where
  pub action : RbacAction
  pub policies : List (String × Policy)

pub record Rbac : Type 0 where
  pub rules : Option RbacRules
  pub shadow_rules : Option RbacRules
  pub shadow_rules_stat_prefix : String

-- `typed_per_filter_config` is the configuration of the RBAC filter, where there is one.
pub record ClusterWeight : Type 0 where
  pub name : String
  pub weight : ℕ
  pub host_rewrite_literal : Option String
  pub typed_per_filter_config : Option Rbac

-- `regex_rewrite` is a pattern and its substitution.
pub record RouteAction : Type 0 where
  pub clusters : List ClusterWeight
  pub host_rewrite_specifier : Option String
  pub regex_rewrite : Option (String × String)
  pub prefix_rewrite : String

pub data Action : Type 0 where
  redirect : RedirectAction → Action
  route_to : RouteAction → Action
  direct_response : ℕ → Action

pub record EnvoyRoute : Type 0 where
  pub name : String
  pub match : RouteMatch
  pub request_headers_to_add : List HeaderValueOption
  pub request_headers_to_remove : List String
  pub action : Action

pub data DiscoveryType : Type 0 where
  strict_dns logical_dns : DiscoveryType

-- The only endpoint of the cluster is `host` at `port`.
pub record Cluster : Type 0 where
  pub name : String
  pub connect_timeout_seconds : ℕ
  pub discovery_type : DiscoveryType
  pub host : String
  pub port : ℕ
  pub tls_sni : Option String
  pub http2 : Bool

pub record VirtualHost : Type 0 where
  pub name : String
  pub domains : List String
  pub routes : List EnvoyRoute
