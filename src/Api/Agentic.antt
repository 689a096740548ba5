-- ===== src/Api/Agentic.antt =====
-- XBackend and XAccessPolicy: api/v0alpha0/backend_types.go and accesspolicy_types.go.
use kube_agentic_networking.Common.{ℕ, String, List, Option}
use kube_agentic_networking.Api.Meta.{ObjectMeta}

pub record McpBackend : Type 0 where
  pub service_name : Option String
  pub hostname : Option String
  pub port : ℕ
  pub path : String

pub record XBackend : Type 0 where
  pub meta : ObjectMeta
  pub mcp : McpBackend

pub record ServiceAccountSource : Type 0 where
  pub namespace : String
  pub name : String

pub data SourceType : Type 0 where
  spiffe service_account : SourceType
  other_source : String → SourceType

pub record Source : Type 0 where
  pub type : SourceType
  pub spiffe_id : Option String
  pub account : Option ServiceAccountSource

pub record AuthBackendRef : Type 0 where
  pub kind : Option String
  pub name : String
  pub namespace : Option String
  pub port : Option ℕ

pub data AuthProtocol : Type 0 where
  grpc http_auth : AuthProtocol
  other_protocol : String → AuthProtocol

pub record HttpAuthConfig : Type 0 where
  pub path : String
  pub allowed_headers : List String
  pub allowed_response_headers : List String

-- gatewayv1.HTTPExternalAuthFilter; `grpc_config` holds the allowed request headers, and
-- `forward_body` the maximal size.
pub record ExternalAuthFilter : Type 0 where
  pub protocol : AuthProtocol
  pub backend_ref : AuthBackendRef
  pub grpc_config : Option (List String)
  pub http_config : Option HttpAuthConfig
  pub forward_body : Option ℕ

pub data RuleType : Type 0 where
  inline_tools external_auth : RuleType
  other_rule : String → RuleType

pub record AuthorizationRule : Type 0 where
  pub type : RuleType
  pub tools : List String
  pub filter : Option ExternalAuthFilter

pub record AccessRule : Type 0 where
  pub name : String
  pub source : Source
  pub authorization : Option AuthorizationRule

pub record TargetRef : Type 0 where
  pub group : String
  pub kind : String
  pub name : String

pub record XAccessPolicy : Type 0 where
  pub meta : ObjectMeta
  pub target_refs : List TargetRef
  pub rules : List AccessRule
