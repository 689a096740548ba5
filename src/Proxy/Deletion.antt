-- ===== src/Proxy/Deletion.antt =====
-- Deleting the objects of a proxy, and that it undoes their creation: DeleteProxy of
-- pkg/infra/envoy/proxy.go.
use kube_agentic_networking.Common.{String, Option, none, some, [], ◌∷◌, concat, remove, name_eq}
use kube_agentic_networking.Api.{Got, got, error}
use kube_agentic_networking.Proxy.Rendering.{proxy_name}
use kube_agentic_networking.Proxy.Ensuring.{Objects, Store, Effect, ◌>>=◌}

-- The errors of the four calls, other than "not found", which the function ignores.
pub record DeleteFaults : Type 0 where
  pub deployment_error : Option String
  pub service_error : Option String
  pub config_map_error : Option String
  pub service_account_error : Option String

abbrev pub delete_object :
    {A : Type 0} → String → Option String → String × String → Objects A → Got {0} Unit × Objects A
delete_object kind none key m = (got tt, remove key m)
delete_object kind (some msg) key m =
    (error (concat ("failed to delete envoy " ∷ kind ∷ ": " ∷ msg ∷ [])), m)

abbrev pub delete_deployment : DeleteFaults → String × String → Store → Effect Unit
delete_deployment f key st =
    let (result, objects) = delete_object "deployment" f.deployment_error key st.deployments in
    (result, record st { deployments = objects })

abbrev pub delete_service : DeleteFaults → String × String → Store → Effect Unit
delete_service f key st =
    let (result, objects) = delete_object "service" f.service_error key st.services in
    (result, record st { services = objects })

abbrev pub delete_config_map : DeleteFaults → String × String → Store → Effect Unit
delete_config_map f key st =
    let (result, objects) = delete_object "configmap" f.config_map_error key st.config_maps in
    (result, record st { config_maps = objects })

abbrev pub delete_service_account : DeleteFaults → String × String → Store → Effect Unit
delete_service_account f key st =
    let (result, objects) =
      delete_object "serviceaccount" f.service_account_error key st.service_accounts in
    (result, record st { service_accounts = objects })

unfoldable pub delete_proxy :
    (String → String) → DeleteFaults → String → String → Store → Effect Unit
unfolding proxy_name remove concat
delete_proxy digest f namespace name st =
    let key : String × String = (namespace, proxy_name digest namespace name) in
    delete_deployment f key st
    >>= (λ u. delete_service f key)
    >>= (λ u. delete_config_map f key)
    >>= (λ u. delete_service_account f key)
