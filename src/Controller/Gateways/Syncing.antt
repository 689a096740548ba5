-- ===== src/Controller/Gateways/Syncing.antt =====
-- The sync itself, and what the queue is told: syncGateway and processNextGatewayItem of
-- pkg/controller/controller.go.
use kube_agentic_networking.Common.{
  ℕ, String, Bool, true, false, Option, none, some, List, [], ◌∷◌, ◌++◌, if◌then◌else◌, map, concat,
  ◌>>=◌,
}
use kube_agentic_networking.Api.{
  ObjectMeta, Got, got, error, Answer, found, not_found, failed, Gateway,
}
use kube_agentic_networking.Translator.Snapshot.Building.{
  Snapshot, build_envoy_resources_for_gateway,
}
use kube_agentic_networking.Proxy.Rendering.{ResourceManager, new_resource_manager, proxy_name}
use kube_agentic_networking.Proxy.Ensuring.{Store, Effect, ensure_proxy_exist}
use kube_agentic_networking.Proxy.Deletion.{delete_proxy}
use kube_agentic_networking.Controller.Finalizers.{ensure_finalizer, remove_finalizer}
use kube_agentic_networking.Controller.Sync.{write_error}
use kube_agentic_networking.Controller.Programmed.{set_gateway_conditions}
use kube_agentic_networking.Controller.Gateways.Parents.{update_http_route_statuses}
use kube_agentic_networking.Controller.Gateways.{
  gateway_finalizer, GatewayStatus, GatewayStep, proxy_deleted, proxy_ensured, enqueued,
  gateway_updated, xds_updated, status_updated, GatewaySync, GatewayController,
  is_gateway_owned_by_controller, has_http_routes_referencing_gateway,
}

abbrev pub nothing_synced : Store → GatewaySync
nothing_synced st = record { steps = []; store = st; returned = none }

abbrev pub error_of {ℓ} : {A : Type ℓ} → Got A → Option String
error_of (got a) = none
error_of (error msg) = some msg

abbrev pub deletion : Effect Unit → GatewaySync
deletion (result, st) = record {
  steps = proxy_deleted ∷ [];
  store = st;
  returned = error_of result;
}

-- After the proxy is deleted: the removal of the finalizer.
abbrev pub finalizer_removed : GatewayController → ObjectMeta × Bool → Store → GatewaySync
finalizer_removed c (m, false) st = record {
  steps = proxy_deleted ∷ [];
  store = st;
  returned = none;
}
finalizer_removed c (m, true) st = record {
  steps = proxy_deleted ∷ gateway_updated m ∷ [];
  store = st;
  returned = write_error "failed to remove finalizer from Gateway: " c.update_error;
}

abbrev pub after_deletion : GatewayController → Gateway → Effect Unit → GatewaySync
after_deletion c gw (error msg, st) = deletion (error msg, st)
after_deletion c gw (got u, st) =
    finalizer_removed c (remove_finalizer gw.meta gateway_finalizer) st

abbrev pub sync_deleting : GatewayController → Gateway → Bool → Store → GatewaySync
sync_deleting c gw true st = nothing_synced st
sync_deleting c gw false st =
    after_deletion c gw (delete_proxy c.digest c.delete_faults gw.meta.namespace gw.meta.name st)

-- The Gateway is queued again once its finalizer is written.
abbrev pub requeue_after : Option String → List GatewayStep
requeue_after none = enqueued ∷ []
requeue_after (some msg) = []

abbrev pub finalizer_added : GatewayController → ObjectMeta → Store → GatewaySync
finalizer_added c m st = record {
  steps = gateway_updated m ∷ requeue_after c.update_error;
  store = st;
  returned = write_error "failed to add finalizer to Gateway: " c.update_error;
}

unfoldable pub new_status :
    GatewayController → Gateway → GatewayStatus → String → Snapshot → GatewayStatus
unfolding set_gateway_conditions
new_status c gw old ip s = record {
  addresses = if c.is_ip ip then ip ∷ [] else [];
  listeners = s.listener_statuses;
  conditions =
      set_gateway_conditions c.context.ops gw.meta.generation old.conditions
        (map (λ l. l.conditions) s.listener_statuses) c.xds_error;
}

abbrev pub with_route_statuses :
    GatewayController → Snapshot → List GatewayStep → Store → GatewaySync
with_route_statuses c s before st =
    let (writes, err) = update_http_route_statuses c s.http_route_statuses in
    record { steps = before ++ writes; store = st; returned = err }

-- The status is written where it differs, and an error of that write ends the sync.
abbrev pub write_gateway_status :
    GatewayController
    → Snapshot
    → GatewayStatus
    → List GatewayStep
    → Bool
    → Option String
    → Store
    → GatewaySync
write_gateway_status c s new before true err st = with_route_statuses c s before st
write_gateway_status c s new before false none st =
    with_route_statuses c s (before ++ status_updated new ∷ []) st
write_gateway_status c s new before false (some msg) st = record {
  steps = before ++ status_updated new ∷ [];
  store = st;
  returned = some msg;
}

abbrev pub publish :
    GatewayController → Gateway → GatewayStatus → String → Store → Snapshot → GatewaySync
publish c gw old ip st s =
    let new = new_status c gw old ip s in
    write_gateway_status c s new
      (proxy_ensured ∷ xds_updated (proxy_name c.digest gw.meta.namespace gw.meta.name) s ∷ [])
      (c.same_status old new) c.status_error st

abbrev pub after_proxy :
    GatewayController → Gateway → GatewayStatus → Effect String → Option GatewaySync
after_proxy c gw old (error msg, st) =
    some (record { steps = proxy_ensured ∷ []; store = st; returned = some msg })
after_proxy c gw old (got ip, st) = do
  s ← build_envoy_resources_for_gateway c.context gw
  some (publish c gw old ip st s)

abbrev pub manager_of : GatewayController → Gateway → ResourceManager
manager_of c gw = new_resource_manager c.digest gw c.envoy_image c.agentic_identity_trust_domain

abbrev pub sync_live :
    GatewayController → Gateway → GatewayStatus → ObjectMeta × Bool → Store → Option GatewaySync
sync_live c gw old (m, true) st = some (finalizer_added c m st)
sync_live c gw old (m, false) st =
    after_proxy c gw old (ensure_proxy_exist c.execute c.server (manager_of c gw) st)

abbrev pub sync_by_deletion :
    GatewayController → Gateway → GatewayStatus → Option ℕ → Store → Option GatewaySync
sync_by_deletion c gw old (some time) st = some (
    sync_deleting c gw (has_http_routes_referencing_gateway c.context.translator.http_routes gw) st)
sync_by_deletion c gw old none st =
    sync_live c gw old (ensure_finalizer gw.meta gateway_finalizer) st

abbrev pub sync_found_gateway :
    GatewayController → Gateway → GatewayStatus → Bool → Store → Option GatewaySync
sync_found_gateway c gw old false st = some (nothing_synced st)
sync_found_gateway c gw old true st = sync_by_deletion c gw old gw.meta.deletion_timestamp st

abbrev pub with_gateway :
    GatewayController
    → String
    → String
    → Answer (Gateway × GatewayStatus)
    → Store
    → Option GatewaySync
with_gateway c namespace name not_found st =
    some (deletion (delete_proxy c.digest c.delete_faults namespace name st))
with_gateway c namespace name (failed msg) st = some (record {
  steps = [];
  store = st;
  returned = some (concat ("failed to get gateway " ∷ namespace ∷ "/" ∷ name ∷ ": " ∷ msg ∷ []));
})
with_gateway c namespace name (found (gw, old)) st =
    sync_found_gateway c gw old (is_gateway_owned_by_controller c gw) st

-- `split` is what SplitMetaNamespaceKey makes of the key, `get` the lister of Gateways.
unfoldable pub sync_gateway :
    GatewayController
    → Option (String × String)
    → (String → String → Answer (Gateway × GatewayStatus))
    → Store
    → Option GatewaySync
unfolding is_gateway_owned_by_controller has_http_routes_referencing_gateway ensure_finalizer
    remove_finalizer ensure_proxy_exist delete_proxy new_status update_http_route_statuses
    build_envoy_resources_for_gateway new_resource_manager
sync_gateway c none get st = some (nothing_synced st)
sync_gateway c (some (namespace, name)) get st =
    with_gateway c namespace name (get namespace name) st

-- The calls of the queue for an item.
pub data QueueCall : Type 0 where
  forgets retries finishes : QueueCall

abbrev pub calls_after : Option String → List QueueCall
calls_after none = forgets ∷ finishes ∷ []
calls_after (some msg) = retries ∷ finishes ∷ []

unfoldable pub process_next_gateway_item :
    GatewayController
    → Option (String × String)
    → (String → String → Answer (Gateway × GatewayStatus))
    → Store
    → Option (GatewaySync × List QueueCall)
unfolding sync_gateway
process_next_gateway_item c split get st = do
  result ← sync_gateway c split get st
  some (result, calls_after result.returned)
