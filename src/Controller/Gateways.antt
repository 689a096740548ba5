-- ===== src/Controller/Gateways.antt =====
-- The sync of a Gateway: what it is given and gives, isGatewayOwnedByController of
-- pkg/controller/gatewayclass.go and hasHTTPRoutesReferencingGateway of pkg/controller/controller.go. Its
-- child Syncing is about syncGateway, Parents about updateHTTPRouteStatuses.
--
-- The objects of the proxies in the API server are a state; the other calls are steps, in order, whose
-- answers are arguments. reflect.DeepEqual, net.ParseIP, SplitMetaNamespaceKey, RetryOnConflict (with the
-- error that it returns in the end) and the server for xDS are parameters. A nil dereference is `none`.
pub mod Parents
pub mod Syncing
pub mod Guarded
mod Examples
use kube_agentic_networking.Common.{
  ℕ, String, Bool, true, false, not, ◌&&◌, ◌||◌, Option, none, some, List, [], ◌∷◌, ◌++◌, ◌==◌, any,
  if◌then◌else◌, or_default, map, concat, ◌>>=◌,
}
use kube_agentic_networking.Api.{
  Condition, ObjectMeta, Got, got, error, Answer, found, not_found, failed, Gateway, GatewayClass,
  ParentReference, HttpRoute,
}
use kube_agentic_networking.Translator.Attachment.{RouteParentStatus, controller_name, group_name}
use kube_agentic_networking.Translator.Snapshot.{Context, ListenerStatus, RouteStatuses}
use kube_agentic_networking.Translator.Snapshot.Building.{
  Snapshot, build_envoy_resources_for_gateway,
}
use kube_agentic_networking.Proxy.Rendering.{
  Execute, ResourceManager, new_resource_manager, proxy_name,
}
use kube_agentic_networking.Proxy.Ensuring.{Store, Server, Effect, ensure_proxy_exist}
use kube_agentic_networking.Proxy.Deletion.{DeleteFaults, delete_proxy}
use kube_agentic_networking.Controller.Finalizers.{ensure_finalizer, remove_finalizer}
use kube_agentic_networking.Controller.Sync.{write_error}
use kube_agentic_networking.Controller.Services.{other_than}
use kube_agentic_networking.Controller.Programmed.{set_gateway_conditions}

abbrev pub gateway_finalizer : String
gateway_finalizer = "kube-agentic-networking.sigs.k8s.io/gateway-finalizer"

pub record GatewayStatus : Type 0 where
  pub addresses : List String
  pub listeners : List ListenerStatus
  pub conditions : List Condition

pub data GatewayStep : Type 0 where
  proxy_deleted proxy_ensured enqueued : GatewayStep
  gateway_updated : ObjectMeta → GatewayStep
  xds_updated : String → Snapshot → GatewayStep
  status_updated : GatewayStatus → GatewayStep
  route_status_updated : String × String → List RouteParentStatus → GatewayStep

pub record GatewaySync : Type 0 where
  pub steps : List GatewayStep
  pub store : Store
  pub returned : Option String

-- What the controller is given: its fields, and the answers of the calls.
pub record GatewayController : Type 0 where
  pub context : Context
  pub digest : String → String
  pub envoy_image : String
  pub agentic_identity_trust_domain : String
  pub execute : Execute
  pub server : Server
  pub delete_faults : DeleteFaults
  pub gateway_class_get : String → Answer GatewayClass
  pub update_error : Option String
  pub status_error : Option String
  pub xds_error : Option String
  pub is_ip : String → Bool
  pub same_status : GatewayStatus → GatewayStatus → Bool
  pub route_parents_get : String × String → Answer (List RouteParentStatus)
  pub same_parents : List RouteParentStatus → List RouteParentStatus → Bool
  pub route_error : String × String → Option String

abbrev pub class_is_ours : Answer GatewayClass → Bool
class_is_ours (found c) = c.controller_name == controller_name
class_is_ours not_found = false
class_is_ours (failed msg) = false

unfoldable pub is_gateway_owned_by_controller : GatewayController → Gateway → Bool
is_gateway_owned_by_controller c gw = class_is_ours (c.gateway_class_get gw.gateway_class_name)

abbrev pub refers_to : Gateway → String → ParentReference → Bool
refers_to gw route_namespace ref =
    not (other_than ref.group group_name || other_than ref.kind "Gateway")
    && (ref.name == gw.meta.name && or_default route_namespace ref.namespace == gw.meta.namespace)

-- An error of the lister blocks, as a route would.
unfoldable pub has_http_routes_referencing_gateway : Got (List HttpRoute) → Gateway → Bool
has_http_routes_referencing_gateway (error msg) gw = true
has_http_routes_referencing_gateway (got routes) gw =
    any (λ r. any (refers_to gw r.meta.namespace) r.parent_refs) routes
