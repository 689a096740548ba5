-- ===== src/Controller/Gateways/Parents.antt =====
-- The statuses of routes that a sync writes: updateHTTPRouteStatuses of pkg/controller/httproute.go.
-- The statuses are written in the order of the list, which stands for the iteration of a map.
use kube_agentic_networking.Common.{
  String, Option, none, some, List, [], ◌∷◌, ◌++◌, if◌then◌else◌, concat,
}
use kube_agentic_networking.Api.{Answer, found, not_found, failed}
use kube_agentic_networking.Translator.Attachment.{RouteParentStatus}
use kube_agentic_networking.Translator.Snapshot.{RouteStatuses}
use kube_agentic_networking.Controller.Gateways.{
  GatewayController, GatewayStep, route_status_updated,
}

abbrev pub stored_parents :
    GatewayController
    → String × String
    → List RouteParentStatus
    → Answer (List RouteParentStatus)
    → List GatewayStep × Option String
stored_parents c key desired not_found = ([], none)
stored_parents c key desired (failed msg) = ([], some msg)
stored_parents c key desired (found old) =
    if c.same_parents old desired
    then ([], none)
    else (route_status_updated key desired ∷ [], c.route_error key)

-- errors.Join: one line for each error.
abbrev pub join_error : String × String → Option String → Option String → Option String
join_error key none later = later
join_error (namespace, name) (some msg) later =
    let this =
      concat
        ("failed to update status for HTTPRoute " ∷ namespace ∷ "/" ∷ name ∷ ": " ∷ msg ∷ []) in
    some (elim later [ none ↦ this | some rest ↦ concat (this ∷ "\n" ∷ rest ∷ []) ])

unfoldable pub update_http_route_statuses :
    GatewayController → RouteStatuses → List GatewayStep × Option String
unfolding concat
update_http_route_statuses c [] = ([], none)
update_http_route_statuses c ((key, desired) ∷ statuses) =
    let (later, errors) = update_http_route_statuses c statuses in
    let (step, err) = stored_parents c key desired (c.route_parents_get key) in
    (step ++ later, join_error key err errors)
