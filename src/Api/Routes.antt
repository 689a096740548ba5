-- ===== src/Api/Routes.antt =====
-- HTTPRoutes, the references they make, and the grants that permit them.
use kube_agentic_networking.Common.{ℕ, String, List, Option}
use kube_agentic_networking.Api.Meta.{ObjectMeta}

pub record ParentReference : Type 0 where
  pub group : Option String
  pub kind : Option String
  pub namespace : Option String
  pub name : String
  pub section_name : Option String
  pub port : Option ℕ

pub record BackendRef : Type 0 where
  pub group : Option String
  pub kind : Option String
  pub namespace : Option String
  pub name : String
  pub port : Option ℕ
  pub weight : Option ℕ

pub data PathMatchType : Type 0 where
  exact path_prefix regular_expression : PathMatchType
  other_path : String → PathMatchType

pub record HttpPathMatch : Type 0 where
  pub type : Option PathMatchType
  pub value : Option String

pub data HeaderMatchType : Type 0 where
  header_exact header_regex : HeaderMatchType
  other_header : String → HeaderMatchType

pub record HttpHeaderMatch : Type 0 where
  pub type : Option HeaderMatchType
  pub name : String
  pub value : String

pub record HttpQueryParamMatch : Type 0 where
  pub name : String
  pub value : String

pub record HttpRouteMatch : Type 0 where
  pub path : Option HttpPathMatch
  pub headers : List HttpHeaderMatch
  pub query_params : List HttpQueryParamMatch

pub record HttpHeader : Type 0 where
  pub name : String
  pub value : String

pub record HttpHeaderFilter : Type 0 where
  pub set_headers : List HttpHeader
  pub add_headers : List HttpHeader
  pub remove_headers : List String

pub record HttpRequestRedirectFilter : Type 0 where
  pub hostname : Option String
  pub status_code : Option ℕ

pub data HttpPathModifier : Type 0 where
  full_path : Option String → HttpPathModifier
  prefix_match : Option String → HttpPathModifier
  other_modifier : String → HttpPathModifier

pub record HttpUrlRewriteFilter : Type 0 where
  pub hostname : Option String
  pub path : Option HttpPathModifier

-- A filter: its type, and the field that belongs to the type.
pub data HttpRouteFilter : Type 0 where
  request_redirect : Option HttpRequestRedirectFilter → HttpRouteFilter
  request_header_modifier : Option HttpHeaderFilter → HttpRouteFilter
  url_rewrite : Option HttpUrlRewriteFilter → HttpRouteFilter
  unsupported : String → HttpRouteFilter

pub record HttpRouteRule : Type 0 where
  pub matches : List HttpRouteMatch
  pub filters : List HttpRouteFilter
  pub backend_refs : List BackendRef

pub record HttpRoute : Type 0 where
  pub meta : ObjectMeta
  pub parent_refs : List ParentReference
  pub hostnames : List String
  pub rules : List HttpRouteRule

-- The dynamic type of a `metav1.Object` that the type switches of the translator tell apart.
pub data RouteObject : Type 0 where
  http_route : HttpRoute → RouteObject
  grpc_route : ObjectMeta → List String → RouteObject
  other_object : ObjectMeta → RouteObject

pub record GrantFrom : Type 0 where
  pub group : String
  pub kind : String
  pub namespace : String

pub record GrantTo : Type 0 where
  pub group : String
  pub kind : String

pub record ReferenceGrant : Type 0 where
  pub from : List GrantFrom
  pub to : List GrantTo
