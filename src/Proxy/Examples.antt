-- ===== src/Proxy/Examples.antt =====
-- Tests and witnesses of the proxies.
use kube_agentic_networking.Common.{ℕ, lookup, String, ◌≡◌, refl, none, [], ◌∷◌, map}
use kube_agentic_networking.Api.{got}
use kube_agentic_networking.Translator.Samples.{front, web}
use kube_agentic_networking.Proxy.Rendering.{
  ResourceManager, ServiceAccount, new_resource_manager, proxy_name, render_service, Execute,
}
use kube_agentic_networking.Proxy.Ensuring.{Store, Server, Faults, ensure_proxy_exist}
use kube_agentic_networking.Proxy.Deletion.{delete_proxy}
use kube_agentic_networking.Proxy.Restored.{StoreSame, no_faults, delete_proxy-restores}

abbrev reliable : Faults
reliable = record { get_error = none; create_error = none }

abbrev server : Server
server = record {
  service_account_faults = reliable;
  config_map_faults = reliable;
  deployment_faults = reliable;
  service_faults = reliable;
  refresh_error = none;
  wait_deployment = none;
  allocated_ip = "";
  wait_service = λ ip. got "10.0.0.7";
}

abbrev other_account : ServiceAccount
other_account = record {
  meta = record { name = "other"; namespace = "shop"; labels = []; owners = [] };
}

abbrev store : Store
store = record {
  service_accounts = (("shop", "other"), other_account) ∷ [];
  config_maps = [];
  deployments = [];
  services = [];
}

abbrev digest : String → String
digest s = "0123456789ab"

abbrev execute : Execute
execute = record { parse = λ template. none; run = λ template fields. got template }

abbrev manager : ResourceManager
manager = new_resource_manager digest front "envoy" "cluster.local"

-- The IP is that of the Service when it is read again.
ensure_proxy_exist_test :
    ((ensure_proxy_exist execute server manager store).0 ≡ got "10.0.0.7")
    × (map
          (λ d. d.1.service_account_name)
          (ensure_proxy_exist execute server manager store).1.deployments
        ≡ "envoy-proxy-0123456789ab" ∷ [])
unfolding ensure_proxy_exist new_resource_manager
ensure_proxy_exist_test = (refl, refl)

-- The first listener of a port names it, and the ports are in order.
render_service_test :
    map {B = String × ℕ}
      (λ p. (p.name, p.port))
      (render_service (record manager {
        gw = record front {
          listeners = record web { name = "b"; port = 443 } ∷ web ∷ record web { name = "c" } ∷ [];
        };
      })).ports
    ≡ ("web", 80) ∷ ("b", 443) ∷ []
unfolding render_service
render_service_test = refl

delete_proxy-restores_example :
    ((delete_proxy digest no_faults "shop" "front"
        (ensure_proxy_exist execute server manager store).1).0
      ≡ got tt)
    × StoreSame store
        (delete_proxy digest no_faults "shop" "front"
          (ensure_proxy_exist execute server manager store).1).1
unfolding proxy_name lookup
delete_proxy-restores_example =
    delete_proxy-restores digest front "envoy" "cluster.local" execute server store
      (refl, refl, refl, refl)
