-- ===== src/Proxy/Ensuring.antt =====
-- Creating the objects of a proxy: EnsureProxyExist of pkg/infra/envoy/proxy.go and the functions that it
-- calls.
--
-- The API server's objects are a state, by namespace and name; its errors are arguments. The two waits are
-- PollUntilContextTimeout, of which the model keeps the error and, for the Service, the cluster IP that the
-- server has assigned meanwhile.
use kube_agentic_networking.Common.{
  String, Option, none, some, List, [], ◌∷◌, ◌==◌, if◌then◌else◌, concat, lookup, insert, name_eq,
}
use kube_agentic_networking.Api.{Got, got, error}
use kube_agentic_networking.Proxy.Rendering.{
  ServiceAccount, ConfigMap, Deployment, ProxyService, ProxyMeta, ResourceManager, Execute,
  render_service_account, render_config_map, render_deployment, render_service,
}

abbrev pub Objects : Type 0 → Type 0
Objects A = List ((String × String) × A)

pub record Store : Type 0 where
  pub service_accounts : Objects ServiceAccount
  pub config_maps : Objects ConfigMap
  pub deployments : Objects Deployment
  pub services : Objects ProxyService

-- The errors of the calls for one kind of object.
pub record Faults : Type 0 where
  pub get_error : Option String
  pub create_error : Option String

pub record Server : Type 0 where
  pub service_account_faults : Faults
  pub config_map_faults : Faults
  pub deployment_faults : Faults
  pub service_faults : Faults
  pub refresh_error : Option String
  pub wait_deployment : Option String
  -- The cluster IP of a Service that is created, and the one after the wait, for the one before.
  pub allocated_ip : String
  pub wait_service : String → Got String

-- A value, or an error, and the state in either case.
abbrev pub Effect : Type 0 → Type 0
Effect A = Got A × Store

infixl 5 ◌>>=◌
abbrev pub ◌>>=◌ : {A B : Type 0} → Effect A → (A → Store → Effect B) → Effect B
(got a, st) >>= k = k a st
(error msg, st) >>= k = (error msg, st)

abbrev pub create_object :
    {A : Type 0} → String → Option String → String × String → A → Objects A → Got A × Objects A
create_object kind none key obj m = (got obj, insert key obj m)
create_object kind (some msg) key obj m =
    (error (concat ("failed to create envoy " ∷ kind ∷ ": " ∷ msg ∷ [])), m)

abbrev pub found_object :
    {A : Type 0} → String → Faults → String × String → A → Objects A → Option A → Got A × Objects A
found_object kind f key obj m (some old) = (got old, m)
found_object kind f key obj m none = create_object kind f.create_error key obj m

-- Get, and Create where it is not found: the object and the objects of its kind afterwards.
abbrev pub get_or_create :
    {A : Type 0}
    → String
    → Faults
    → Option String
    → String × String
    → A
    → Objects A
    → Got A × Objects A
get_or_create kind f none key obj m = found_object kind f key obj m (lookup key m)
get_or_create kind f (some msg) key obj m =
    (error (concat ("failed to get envoy " ∷ kind ∷ ": " ∷ msg ∷ [])), m)

abbrev pub key_of : ProxyMeta → String × String
key_of m = (m.namespace, m.name)

abbrev pub fail_if : Option String → Store → Effect Unit
fail_if none st = (got tt, st)
fail_if (some msg) st = (error msg, st)

module _ (execute : Execute) (server : Server) (r : ResourceManager) where
  unfoldable pub ensure_sa : Store → Effect ServiceAccount
  unfolding render_service_account concat lookup insert
  ensure_sa st =
      let sa = render_service_account r in
      let (result, objects) =
        get_or_create "serviceaccount" server.service_account_faults
          server.service_account_faults.get_error (key_of sa.meta) sa st.service_accounts in
      (result, record st { service_accounts = objects })

  abbrev pub ensure_rendered : Got ConfigMap → Store → Effect ConfigMap
  ensure_rendered (error msg) st = (error msg, st)
  ensure_rendered (got cm) st =
      let (result, objects) =
        get_or_create "configmap" server.config_map_faults server.config_map_faults.get_error
          (key_of cm.meta) cm st.config_maps in
      (result, record st { config_maps = objects })

  unfoldable pub ensure_config_map : Store → Effect ConfigMap
  unfolding render_config_map concat lookup insert
  ensure_config_map st = ensure_rendered (render_config_map execute r) st

  abbrev pub wait_for_deployment : Option String → Deployment → Store → Effect Deployment
  wait_for_deployment none d st = (got d, st)
  wait_for_deployment (some msg) d st = (
    error (concat ("waiting for envoy deployment " ∷ r.node_id ∷ " to be available: " ∷ msg ∷ [])),
    st,
  )

  abbrev pub stored_deployment : Store → Effect Deployment
  stored_deployment st =
      let d = render_deployment r in
      let (result, objects) =
        get_or_create "deployment" server.deployment_faults server.deployment_faults.get_error
          (key_of d.meta) d st.deployments in
      (result, record st { deployments = objects })

  unfoldable pub ensure_deployment : Store → Effect Deployment
  unfolding render_deployment concat lookup insert
  ensure_deployment st = stored_deployment st >>= wait_for_deployment server.wait_deployment

  abbrev pub service_key : String × String
  service_key = (r.gw.meta.namespace, r.node_id)

  -- The Service as the server stores it after the wait.
  abbrev pub store_ip : Got String → ProxyService → Store → Effect ProxyService
  store_ip (error msg) svc st =
      (error (concat ("waiting for envoy service " ∷ r.node_id ∷ " to be ready: " ∷ msg ∷ [])), st)
  store_ip (got ip) svc st = (
    got svc,
    record st { services = insert service_key (record svc { cluster_ip = ip }) st.services },
  )

  abbrev pub wait_for_service : ProxyService → Store → Effect ProxyService
  wait_for_service svc st = store_ip (server.wait_service svc.cluster_ip) svc st

  abbrev pub ip_of : Option ProxyService → Store → Effect String
  ip_of none st = (error "failed to refresh envoy service: not found", st)
  ip_of (some svc) st = (got svc.cluster_ip, st)

  abbrev pub refresh : Option String → Store → Effect String
  refresh none st = ip_of (lookup service_key st.services) st
  refresh (some msg) st = (error (concat ("failed to refresh envoy service: " ∷ msg ∷ [])), st)

  -- `svc` is the Service as it was before the wait.
  abbrev pub read_cluster_ip : ProxyService → Store → Effect String
  read_cluster_ip svc st =
      if svc.cluster_ip == "" then refresh server.refresh_error st else (got svc.cluster_ip, st)

  -- The Service that is created has the cluster IP that the server has allocated by then.
  abbrev pub stored_service : Store → Effect ProxyService
  stored_service st =
      let (result, objects) =
        get_or_create "service" server.service_faults server.service_faults.get_error service_key
          (record (render_service r) { cluster_ip = server.allocated_ip }) st.services in
      (result, record st { services = objects })

  unfoldable pub ensure_service : Store → Effect String
  unfolding render_service concat lookup insert
  ensure_service st = stored_service st >>= wait_for_service >>= read_cluster_ip

  unfoldable pub ensure_proxy_exist : Store → Effect String
  unfolding ensure_sa ensure_config_map ensure_deployment ensure_service
  ensure_proxy_exist st =
      ensure_sa st
      >>= (λ sa. ensure_config_map)
      >>= (λ cm. ensure_deployment)
      >>= (λ d. ensure_service)
