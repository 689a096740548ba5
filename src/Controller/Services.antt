-- ===== src/Controller/Services.antt =====
-- The Gateways to queue when a Service changes, by the index of references and by the list of routes:
-- pkg/controller/service.go, and enqueueGatewaysForHTTPRoute of pkg/controller/httproute.go.
--
-- The keys that are added to the queue are a list, in which order and repetition mean nothing. `ByIndex` of
-- the indexer is a parameter.
pub mod Indexed
mod Examples
use Prim.Native.String
use kube_agentic_networking.Common.{
  String, Bool, true, false, not, ◌&&◌, ◌||◌, Option, none, some, List, [], ◌∷◌, ◌++◌, ◌==◌, any,
  if◌then◌else◌, or_default,
}
use kube_agentic_networking.Api.{
  Got, got, error, Service, BackendRef, ParentReference, HttpRouteRule, HttpRoute, ReferenceGrant,
}
use kube_agentic_networking.Translator.Attachment.{group_name}
use kube_agentic_networking.Translator.Backends.{allowed_by_reference_grant}
use kube_agentic_networking.Controller.Sync.{agentic_group}

abbrev pub is_text : Option String → String → Bool
is_text none s = false
is_text (some t) s = t == s

unfoldable pub is_xbackend_ref : BackendRef → Bool
is_xbackend_ref ref = is_text ref.group agentic_group && is_text ref.kind "XBackend"

-- namespace + "/" + name
abbrev pub object_key : String → String → String
object_key namespace name = String.◌++◌ namespace (String.◌++◌ "/" name)

-- The keys of the references of one rule, and of all.
unfoldable pub ref_keys : String → List BackendRef → List String
unfolding is_xbackend_ref
ref_keys namespace [] = []
ref_keys namespace (ref ∷ refs) =
    let rest = ref_keys namespace refs in
    if is_xbackend_ref ref
    then rest
    else object_key (or_default namespace ref.namespace) ref.name ∷ rest

unfoldable pub rule_keys : String → List HttpRouteRule → List String
unfolding ref_keys
rule_keys namespace [] = []
rule_keys namespace (rule ∷ rules) =
    ref_keys namespace rule.backend_refs ++ rule_keys namespace rules

-- HTTPRouteServiceRefIndexFunc
unfoldable pub http_route_service_ref_index_func : HttpRoute → List String
unfolding rule_keys
http_route_service_ref_index_func route = rule_keys route.meta.namespace route.rules

abbrev pub other_than : Option String → String → Bool
other_than none s = false
other_than (some t) s = not (t == s)

unfoldable pub enqueue_gateways_for_http_route : List ParentReference → String → List String
enqueue_gateways_for_http_route [] local_namespace = []
enqueue_gateways_for_http_route (ref ∷ refs) local_namespace =
    let rest = enqueue_gateways_for_http_route refs local_namespace in
    if other_than ref.group group_name || other_than ref.kind "Gateway"
    then rest
    else object_key (or_default local_namespace ref.namespace) ref.name ∷ rest

abbrev pub gateways_of : HttpRoute → List String
gateways_of route = enqueue_gateways_for_http_route route.parent_refs route.meta.namespace

-- The Gateways of the routes that pass a test.
abbrev pub gateways_of_all : (HttpRoute → Bool) → List HttpRoute → List String
gateways_of_all test [] = []
gateways_of_all test (route ∷ routes) =
    let rest = gateways_of_all test routes in if test route then gateways_of route ++ rest else rest

module _ (grants : String → Got (List ReferenceGrant)) (svc : Service) where
  -- One reference of the list-based test.
  unfoldable pub ref_matches : String → BackendRef → Bool
  unfolding is_xbackend_ref allowed_by_reference_grant
  ref_matches namespace ref =
      let backend_namespace = or_default namespace ref.namespace in
      not (is_xbackend_ref ref)
      && ((backend_namespace == svc.meta.namespace && ref.name == svc.meta.name)
          && allowed_by_reference_grant namespace backend_namespace grants)

  unfoldable pub route_matches : HttpRoute → Bool
  unfolding ref_matches
  route_matches route =
      any (λ rule. any (ref_matches route.meta.namespace) rule.backend_refs) route.rules

  -- enqueueGatewaysForServiceDirectHTTPRouteRefsList
  unfoldable pub enqueue_direct_refs_list : Got (List HttpRoute) → List String
  unfolding route_matches enqueue_gateways_for_http_route
  enqueue_direct_refs_list (error msg) = []
  enqueue_direct_refs_list (got routes) = gateways_of_all route_matches routes

  abbrev pub route_allowed : HttpRoute → Bool
  route_allowed route = allowed_by_reference_grant route.meta.namespace svc.meta.namespace grants

  abbrev pub enqueue_indexed : Got (List HttpRoute) → List String
  enqueue_indexed (error msg) = []
  enqueue_indexed (got routes) = gateways_of_all route_allowed routes

  -- enqueueGatewaysForServiceDirectHTTPRouteRefs; without an indexer the list is used.
  unfoldable pub enqueue_direct_refs :
      Option (String → Got (List HttpRoute)) → Got (List HttpRoute) → List String
  unfolding enqueue_direct_refs_list allowed_by_reference_grant enqueue_gateways_for_http_route
  enqueue_direct_refs none routes = enqueue_direct_refs_list routes
  enqueue_direct_refs (some by_index) routes =
      enqueue_indexed (by_index (object_key svc.meta.namespace svc.meta.name))
