-- ===== src/Controller/Gateways/Guarded.antt =====
-- When the sync of a Gateway creates and deletes its proxy and writes its finalizer: syncGateway of
-- pkg/controller/controller.go.
use mathlib.Core.Path.{subst}
use kube_agentic_networking.Common.{
  if◌then◌else◌, ℕ, String, ◌≡◌, refl, sym, ap, ◌∙◌, ◌⊎◌, inl, inr, Bool, true, false, not, Option,
  none, some, List, [], ◌∷◌, ◌++◌, All, bind-cases, some_inj,
}
use kube_agentic_networking.Api.{ObjectMeta, got, error, Answer, found, not_found, failed, Gateway}
use kube_agentic_networking.Translator.Attachment.{RouteParentStatus}
use kube_agentic_networking.Translator.Snapshot.{RouteStatuses}
use kube_agentic_networking.Translator.Snapshot.Building.{
  Snapshot, build_envoy_resources_for_gateway,
}
use kube_agentic_networking.Proxy.Rendering.{proxy_name}
use kube_agentic_networking.Proxy.Ensuring.{Store, Effect}
use kube_agentic_networking.Proxy.Deletion.{delete_proxy}
use kube_agentic_networking.Controller.Finalizers.{
  has_finalizer, ensure_finalizer, remove_finalizer, ensure_finalizer-ensures,
}
use kube_agentic_networking.Controller.Gateways.{
  gateway_finalizer, GatewayStatus, GatewayStep, proxy_deleted, proxy_ensured, enqueued,
  gateway_updated, xds_updated, status_updated, route_status_updated, GatewaySync,
  GatewayController, is_gateway_owned_by_controller, has_http_routes_referencing_gateway,
}
use kube_agentic_networking.Controller.Gateways.Parents.{stored_parents, update_http_route_statuses}
use kube_agentic_networking.Controller.Gateways.Syncing.{
  with_gateway, finalizer_removed, after_deletion, sync_deleting, requeue_after, finalizer_added,
  write_gateway_status, publish, new_status, after_proxy, sync_live, sync_by_deletion,
  sync_found_gateway, sync_gateway,
}

-- The Gateway is this controller's, is not being deleted and has the finalizer.
abbrev pub IsGuarded : GatewayController → Gateway → Type 0
IsGuarded c gw =
    (is_gateway_owned_by_controller c gw ≡ true)
    × (gw.meta.deletion_timestamp ≡ none)
    × (has_finalizer gateway_finalizer gw.meta ≡ true)

-- It is this controller's, is being deleted and no route refers to it.
abbrev pub IsReleased : GatewayController → Gateway → Type 0
IsReleased c gw =
    (is_gateway_owned_by_controller c gw ≡ true)
    × ((time : ℕ) × (gw.meta.deletion_timestamp ≡ some time))
    × (has_http_routes_referencing_gateway c.context.translator.http_routes gw ≡ false)

abbrev pub Allowed : GatewayController → Gateway → Store → GatewayStep → Type 0
Allowed c gw st proxy_ensured = IsGuarded c gw
Allowed c gw st (xds_updated node s) = IsGuarded c gw
Allowed c gw st (status_updated status) = IsGuarded c gw
Allowed c gw st proxy_deleted = IsReleased c gw
Allowed c gw st (gateway_updated m) =
    ((gw.meta.deletion_timestamp ≡ none) × (has_finalizer gateway_finalizer m ≡ true))
    ⊎ (IsReleased c gw
        × ((delete_proxy c.digest c.delete_faults gw.meta.namespace gw.meta.name st).0 ≡ got tt))
Allowed c gw st enqueued = Unit
Allowed c gw st (route_status_updated key parents) = Unit

All-append : {A : Type 0} (P : A → Type 0) (xs ys : List A) → All P xs → All P ys → All P (xs ++ ys)
All-append P [] ys p q = q
All-append P (x ∷ xs) ys (h, p) q = (h, All-append P xs ys p q)

module _ (c : GatewayController) (gw : Gateway) (old : GatewayStatus) (st : Store) where
  abbrev AllAllowed : List GatewayStep → Type 0
  AllAllowed steps = All (Allowed c gw st) steps

  route_statuses-Allowed :
      (statuses : RouteStatuses) → AllAllowed (update_http_route_statuses c statuses).0
  unfolding update_http_route_statuses
  route_statuses-Allowed [] = tt
  route_statuses-Allowed ((key, desired) ∷ statuses) =
      All-append (Allowed c gw st) _ _ (stored (c.route_parents_get key))
        (route_statuses-Allowed statuses)
    where
      by_test :
          (b : Bool)
          → let p : List GatewayStep × Option String =
              (if b
                then ([], none)
                else (route_status_updated key desired ∷ [], c.route_error key)) in
            AllAllowed p.0
      by_test true = tt
      by_test false = (tt, tt)

      stored : (a : Answer (List RouteParentStatus)) → AllAllowed (stored_parents c key desired a).0
      stored not_found = tt
      stored (failed msg) = tt
      stored (found parents) = by_test (c.same_parents parents desired)

  publish-Allowed :
      (ip : String) (next : Store) (s : Snapshot)
      → IsGuarded c gw
      → AllAllowed (publish c gw old ip next s).steps
  publish-Allowed ip next s guarded =
      written (c.same_status old (new_status c gw old ip s)) c.status_error
    where
      written :
          (b : Bool) (err : Option String)
          → AllAllowed
              (write_gateway_status c s
                (new_status c gw old ip s)
                (proxy_ensured
                  ∷ xds_updated (proxy_name c.digest gw.meta.namespace gw.meta.name) s
                  ∷ [])
                b
                err
                next).steps
      written true err = (guarded, (guarded, route_statuses-Allowed s.http_route_statuses))
      written false none =
          (guarded, (guarded, (guarded, route_statuses-Allowed s.http_route_statuses)))
      written false (some msg) = (guarded, (guarded, (guarded, tt)))

  after_proxy-Allowed :
      (e : Effect String) (o : GatewaySync)
      → IsGuarded c gw
      → after_proxy c gw old e ≡ some o
      → AllAllowed o.steps
  after_proxy-Allowed (error msg, next) o guarded run =
      subst (λ z. AllAllowed z.steps) (some_inj run) (guarded, tt)
  after_proxy-Allowed (got ip, next) o guarded run =
      let (s, built, same) = bind-cases (build_envoy_resources_for_gateway c.context gw) _ o run in
      subst (λ z. AllAllowed z.steps) (some_inj same) (publish-Allowed ip next s guarded)

  added-Allowed :
      (m : ObjectMeta)
      → Allowed c gw st (gateway_updated m)
      → AllAllowed (finalizer_added c m st).steps
  added-Allowed m h = (h, requeued c.update_error)
    where
      requeued : (err : Option String) → AllAllowed (requeue_after err)
      requeued none = (tt, tt)
      requeued (some msg) = tt

  sync_live-Allowed :
      (p : ObjectMeta × Bool) (o : GatewaySync)
      → ensure_finalizer gw.meta gateway_finalizer ≡ p
      → is_gateway_owned_by_controller c gw ≡ true
      → gw.meta.deletion_timestamp ≡ none
      → sync_live c gw old p st ≡ some o
      → AllAllowed o.steps
  sync_live-Allowed (m, true) o e ours alive run =
      let (changed, has, others) = ensure_finalizer-ensures gw.meta gateway_finalizer in
      subst (λ z. AllAllowed z.steps) (some_inj run)
        (added-Allowed m
          (inl (alive, subst (λ z. has_finalizer gateway_finalizer z.0 ≡ true) e has)))
  sync_live-Allowed (m, false) o e ours alive run =
      let (changed, has, others) = ensure_finalizer-ensures gw.meta gateway_finalizer in
      let there : false ≡ not (has_finalizer gateway_finalizer gw.meta) =
        sym (ap (λ z. z.1) e) ∙ changed in
      after_proxy-Allowed _ o (ours, alive, present (has_finalizer gateway_finalizer gw.meta) there)
        run
    where
      present : (b : Bool) → false ≡ not b → b ≡ true
      present true h = refl
      present false h = cc

  sync_deleting-Allowed :
      (b : Bool)
      → has_http_routes_referencing_gateway c.context.translator.http_routes gw ≡ b
      → is_gateway_owned_by_controller c gw ≡ true
      → ((time : ℕ) × (gw.meta.deletion_timestamp ≡ some time))
      → AllAllowed (sync_deleting c gw b st).steps
  sync_deleting-Allowed true e ours dying = tt
  sync_deleting-Allowed false e ours dying = deleted _ refl
    where
      removed :
          (p : ObjectMeta × Bool) (next : Store)
          → (delete_proxy c.digest c.delete_faults gw.meta.namespace gw.meta.name st).0 ≡ got tt
          → AllAllowed (finalizer_removed c p next).steps
      removed (m, false) next h = ((ours, dying, e), tt)
      removed (m, true) next h = ((ours, dying, e), (inr ((ours, dying, e), h), tt))

      deleted :
          (r : Effect Unit)
          → delete_proxy c.digest c.delete_faults gw.meta.namespace gw.meta.name st ≡ r
          → AllAllowed (after_deletion c gw r).steps
      deleted (error msg, next) h = ((ours, dying, e), tt)
      deleted (got tt, next) h =
          removed (remove_finalizer gw.meta gateway_finalizer) next (ap (λ z. z.0) h)

  sync_by_deletion-Allowed :
      (t : Option ℕ) (o : GatewaySync)
      → gw.meta.deletion_timestamp ≡ t
      → is_gateway_owned_by_controller c gw ≡ true
      → sync_by_deletion c gw old t st ≡ some o
      → AllAllowed o.steps
  sync_by_deletion-Allowed (some time) o e ours run =
      subst (λ z. AllAllowed z.steps) (some_inj run) (sync_deleting-Allowed _ refl ours (time, e))
  sync_by_deletion-Allowed none o e ours run = sync_live-Allowed _ o refl ours e run

  sync_found-Allowed :
      (b : Bool) (o : GatewaySync)
      → is_gateway_owned_by_controller c gw ≡ b
      → sync_found_gateway c gw old b st ≡ some o
      → AllAllowed o.steps
  sync_found-Allowed false o e run = subst (λ z. AllAllowed z.steps) (some_inj run) tt
  sync_found-Allowed true o e run = sync_by_deletion-Allowed _ o refl e run

-- Every call of the sync of a Gateway that is found is allowed: its proxy is created and its xDS resources
-- and its status are written only where the Gateway is of this controller, is not being deleted and has the
-- finalizer; its proxy is deleted only where it is of this controller, is being deleted and no route refers
-- to it; and its metadata is written only with the finalizer where it is not being deleted, or where it is,
-- after its proxy is deleted without an error.
pub sync_gateway-Allowed :
    (c : GatewayController) (namespace name : String)
    (get : String → String → Answer (Gateway × GatewayStatus)) (gw : Gateway) (old : GatewayStatus)
    (st : Store) (o : GatewaySync)
    → get namespace name ≡ found (gw, old)
    → sync_gateway c (some (namespace, name)) get st ≡ some o
    → All (Allowed c gw st) o.steps
unfolding sync_gateway
sync_gateway-Allowed c namespace name get gw old st o e run =
    sync_found-Allowed c gw old st _ o refl
      (subst (λ z. with_gateway c namespace name z st ≡ some o) e run)
