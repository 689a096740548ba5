-- ===== src/Controller/Sync.antt =====
-- The finalizers of XBackends and of GatewayClasses: syncBackendFinalizer of pkg/controller/backend.go and
-- syncGatewayClass of pkg/controller/gatewayclass.go.
--
-- A function is given the answers of the listers and of the write to the API server, and returns what it
-- writes and the message of the error that it returns.
use kube_agentic_networking.Common.{
  String, Bool, true, false, not, ◌&&◌, Option, none, some, List, [], ◌∷◌, ◌==◌, any, if◌then◌else◌,
  concat,
}
use kube_agentic_networking.Api.{
  Condition, ObjectMeta, Got, got, error, Answer, found, not_found, failed, XBackend, XAccessPolicy,
  TargetRef, Gateway, GatewayClass,
}
use kube_agentic_networking.Controller.Finalizers.{ensure_finalizer, remove_finalizer}
use kube_agentic_networking.Translator.Attachment.{controller_name}

abbrev pub xbackend_finalizer : String
xbackend_finalizer = "kube-agentic-networking.sigs.k8s.io/xbackend-finalizer"

abbrev pub gateway_class_finalizer : String
gateway_class_finalizer = "kube-agentic-networking.sigs.k8s.io/gatewayclass-finalizer"

abbrev pub agentic_group : String
agentic_group = "agentic.prototype.x-k8s.io"

abbrev pub is_xbackend_target_ref : TargetRef → Bool
is_xbackend_target_ref ref = ref.group == agentic_group && ref.kind == "XBackend"

-- An error of the lister blocks, as a policy would.
unfoldable pub has_access_policies_targeting_backend : Got (List XAccessPolicy) → XBackend → Bool
has_access_policies_targeting_backend (error msg) b = true
has_access_policies_targeting_backend (got policies) b =
    any (λ p. any (λ ref. is_xbackend_target_ref ref && ref.name == b.meta.name) p.target_refs)
      policies

pub record Synced (A : Type 0) : Type 0 where
  pub written : Option A
  pub returned : Option String

abbrev pub nothing_written : Synced XBackend
nothing_written = record { written = none; returned = none }

-- The message of the error of a write, after what the program puts before it.
abbrev pub write_error : String → Option String → Option String
write_error doing none = none
write_error doing (some msg) = some (concat (doing ∷ msg ∷ []))

-- A write of the changed object, where something changed; `answer` is the error of the write.
abbrev pub write_backend :
    String → (XBackend → Option String) → XBackend → ObjectMeta × Bool → Synced XBackend
write_backend doing answer b (m, changed) =
    let new = record b { meta = m } in
    if changed
    then record { written = some new; returned = write_error doing (answer new) }
    else nothing_written

-- A backend that is not marked for deletion, and one that is.
abbrev pub sync_found :
    (XBackend → Option String) → Got (List XAccessPolicy) → XBackend → Bool → Synced XBackend
sync_found answer policies b false =
    write_backend "failed to add finalizer to XBackend: " answer b
      (ensure_finalizer b.meta xbackend_finalizer)
sync_found answer policies b true =
    if has_access_policies_targeting_backend policies b
    then nothing_written
    else write_backend "failed to remove finalizer from XBackend: " answer b
        (remove_finalizer b.meta xbackend_finalizer)

abbrev pub is_set {ℓ} : {A : Type ℓ} → Option A → Bool
is_set none = false
is_set (some a) = true

unfoldable pub sync_backend_finalizer :
    (XBackend → Option String) → Got (List XAccessPolicy) → Answer XBackend → Synced XBackend
unfolding has_access_policies_targeting_backend ensure_finalizer remove_finalizer
sync_backend_finalizer answer policies not_found = nothing_written
sync_backend_finalizer answer policies (failed msg) = record { written = none; returned = some msg }
sync_backend_finalizer answer policies (found b) =
    sync_found answer policies b (is_set b.meta.deletion_timestamp)

-- What syncGatewayClass writes: the object, or its status with the condition Accepted.
pub data ClassWrite : Type 0 where
  no_write : ClassWrite
  update : GatewayClass → ClassWrite
  update_status : GatewayClass → Condition → ClassWrite

unfoldable pub has_gateways_referencing_class : Got (List Gateway) → String → Bool
has_gateways_referencing_class (error msg) class_name = true
has_gateways_referencing_class (got gateways) class_name =
    any (λ g. g.gateway_class_name == class_name) gateways

abbrev pub write_class : ClassWrite → GatewayClass → ObjectMeta × Bool → ClassWrite
write_class otherwise c (m, changed) = if changed then update (record c { meta = m }) else otherwise

abbrev pub class_accepted : GatewayClass → Condition
class_accepted c = record {
  type = "Accepted";
  status = "True";
  reason = "Accepted";
  message = "GatewayClass is accepted by this controller.";
  observed_generation = c.meta.generation;
}

abbrev pub sync_class : Got (List Gateway) → GatewayClass → Bool → ClassWrite
sync_class gateways c false =
    write_class (update_status c (class_accepted c)) c
      (ensure_finalizer c.meta gateway_class_finalizer)
sync_class gateways c true =
    if has_gateways_referencing_class gateways c.meta.name
    then no_write
    else write_class no_write c (remove_finalizer c.meta gateway_class_finalizer)

unfoldable pub sync_gateway_class : Got (List Gateway) → Answer GatewayClass → ClassWrite
unfolding has_gateways_referencing_class ensure_finalizer remove_finalizer
sync_gateway_class gateways not_found = no_write
sync_gateway_class gateways (failed msg) = no_write
sync_gateway_class gateways (found c) =
    if not (c.controller_name == controller_name)
    then no_write
    else sync_class gateways c (is_set c.meta.deletion_timestamp)
