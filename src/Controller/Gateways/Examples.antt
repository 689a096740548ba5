-- ===== src/Controller/Gateways/Examples.antt =====
-- Tests and witnesses of the sync of Gateways.
use kube_agentic_networking.Common.{◌≡◌, refl, true, false, some, none, [], ◌∷◌, All}
use kube_agentic_networking.Api.{got, found, Gateway, GatewayClass}
use kube_agentic_networking.Translator.Attachment.{controller_name}
use kube_agentic_networking.Translator.Samples.{sample, meta_of, front}
use kube_agentic_networking.Translator.SampleConditions.{condition_ops}
use kube_agentic_networking.Translator.SampleSort.{insertion_sort}
use kube_agentic_networking.Proxy.Ensuring.{Store, Faults}
use kube_agentic_networking.Proxy.Restored.{no_faults}
use kube_agentic_networking.Controller.Gateways.{
  GatewayController, GatewayStatus, GatewaySync, proxy_deleted, gateway_updated, gateway_finalizer,
}
use kube_agentic_networking.Controller.Gateways.Syncing.{sync_gateway}
use kube_agentic_networking.Controller.Gateways.Guarded.{Allowed, sync_gateway-Allowed}

abbrev reliable : Faults
reliable = record { get_error = none; create_error = none }

abbrev our_class : GatewayClass
our_class = record { meta = meta_of "" "agentic"; controller_name = controller_name }

abbrev controller : GatewayController
controller = record {
  context = record {
    translator = sample;
    ops = condition_ops;
    sort_slice = insertion_sort;
    order_accepted = λ ls. ls;
    order_validated = λ ports. ports;
    order_hostnames = λ hs. hs;
    order_ports = λ ports. ports;
    order_hosts = λ hosts. hosts;
    order_clusters = λ cs. cs;
  };
  digest = λ s. "0123456789ab";
  envoy_image = "envoy";
  agentic_identity_trust_domain = "cluster.local";
  execute = record { parse = λ template. none; run = λ template fields. got template };
  server = record {
    service_account_faults = reliable;
    config_map_faults = reliable;
    deployment_faults = reliable;
    service_faults = reliable;
    refresh_error = none;
    wait_deployment = none;
    allocated_ip = "";
    wait_service = λ ip. got "10.0.0.7";
  };
  delete_faults = no_faults;
  gateway_class_get = λ name. found our_class;
  update_error = none;
  status_error = none;
  xds_error = none;
  is_ip = λ s. true;
  same_status = λ a b. false;
  route_parents_get = λ key. found [];
  same_parents = λ a b. false;
  route_error = λ key. none;
}

abbrev no_objects : Store
no_objects = record { service_accounts = []; config_maps = []; deployments = []; services = [] }

abbrev old_status : GatewayStatus
old_status = record { addresses = []; listeners = []; conditions = [] }

abbrev dying : Gateway
dying = record front {
  meta = record front.meta { deletion_timestamp = some 5; finalizers = gateway_finalizer ∷ [] };
}

abbrev released : GatewaySync
released = record {
  steps = proxy_deleted ∷ gateway_updated (record dying.meta { finalizers = [] }) ∷ [];
  store = no_objects;
  returned = none;
}

dying-released :
    sync_gateway controller
      (some ("shop", "front"))
      (λ ns name. found (dying, old_status))
      no_objects
    ≡ some released
unfolding sync_gateway
dying-released = refl

sync_gateway-Allowed_example : All (Allowed controller dying no_objects) released.steps
sync_gateway-Allowed_example =
    sync_gateway-Allowed controller "shop" "front" (λ ns name. found (dying, old_status)) dying
      old_status no_objects released refl dying-released
