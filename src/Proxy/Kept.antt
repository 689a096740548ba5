-- ===== src/Proxy/Kept.antt =====
-- Creating a proxy leaves every other object as it was: EnsureProxyExist of pkg/infra/envoy/proxy.go.
use kube_agentic_networking.Common.{
  String, ◌≡◌, ◌≢◌, refl, ◌∙◌, Bool, true, false, Option, none, some, lookup, insert, lookup-insert,
  name_eq, arith, if◌then◌else◌, ◌==◌,
}
use kube_agentic_networking.Api.{Got, got, error}
use kube_agentic_networking.Proxy.Rendering.{
  config_map_of, Deployment, ProxyService, ResourceManager, Execute, render_service_account,
  render_config_map, render_deployment, with_configs,
}
use kube_agentic_networking.Proxy.Ensuring.{
  stored_deployment, stored_service, Objects, Store, Server, Faults, Effect, ◌>>=◌, get_or_create,
  found_object, create_object, ensure_sa, ensure_config_map, ensure_rendered, ensure_deployment,
  ensure_service, ensure_proxy_exist, wait_for_deployment, wait_for_service, store_ip,
  read_cluster_ip, refresh, ip_of, service_key,
}

-- Two maps bind every key but one to the same.
abbrev pub SameBut : {A : Type 0} → String × String → Objects A → Objects A → Type 0
SameBut key m n = (k : String × String) → k ≢ key → lookup k m ≡ lookup k n

abbrev pub StoreSameBut : String × String → Store → Store → Type 0
StoreSameBut key st new =
    SameBut key st.service_accounts new.service_accounts
    × SameBut key st.config_maps new.config_maps
    × SameBut key st.deployments new.deployments
    × SameBut key st.services new.services

insert-SameBut :
    {A : Type 0} (key : String × String) (a : A) (m : Objects A) → SameBut key m (insert key a m)
insert-SameBut key a m k n =
    let e = lookup-insert key k a m in let f = name_eq.beq_iff key k in ground (arith, e, f)

get_or_create-SameBut :
    {A : Type 0} (kind : String) (f : Faults) (fault : Option String) (key : String × String)
    (obj : A) (m : Objects A)
    → SameBut key m (get_or_create kind f fault key obj m).1
get_or_create-SameBut kind f (some msg) key obj m = λ k n. refl
get_or_create-SameBut kind f none key obj m = on_lookup (lookup key m)
  where
    on_create : (o : Option String) → SameBut key m (create_object kind o key obj m).1
    on_create none = insert-SameBut key obj m
    on_create (some msg) = λ k n. refl

    on_lookup : (o : Option _) → SameBut key m (found_object kind f key obj m o).1
    on_lookup (some old) = λ k n. refl
    on_lookup none = on_create f.create_error

StoreSameBut-refl : (key : String × String) (st : Store) → StoreSameBut key st st
StoreSameBut-refl key st = ((λ k n. refl), (λ k n. refl), (λ k n. refl), (λ k n. refl))

StoreSameBut-trans :
    (key : String × String) (a b c : Store)
    → StoreSameBut key a b
    → StoreSameBut key b c
    → StoreSameBut key a c
StoreSameBut-trans key a b c (p, q, r, s) (t, u, v, w) =
    ((λ k n. p k n ∙ t k n), (λ k n. q k n ∙ u k n), (λ k n. r k n ∙ v k n), (λ k n. s k n ∙ w k n))

-- Steps that leave the other keys, one after the other.
bind-StoreSameBut :
    {A B : Type 0} (key : String × String) (st : Store) (e : Effect A) (k : A → Store → Effect B)
    → StoreSameBut key st e.1
    → ((a : A) (next : Store) → StoreSameBut key next (k a next).1)
    → StoreSameBut key st (e >>= k).1
bind-StoreSameBut key st (got a, next) k h later = StoreSameBut-trans key st next _ h (later a next)
bind-StoreSameBut key st (error msg, next) k h later = h

module _ (execute : Execute) (server : Server) (r : ResourceManager) where
  abbrev pub proxy_key : String × String
  proxy_key = (r.gw.meta.namespace, r.node_id)

  ensure_sa-SameBut : (st : Store) → StoreSameBut proxy_key st (ensure_sa execute server r st).1
  unfolding ensure_sa render_service_account
  ensure_sa-SameBut st = (
    get_or_create-SameBut "serviceaccount" server.service_account_faults
        server.service_account_faults.get_error proxy_key _ st.service_accounts,
    (λ k n. refl),
    (λ k n. refl),
    (λ k n. refl),
  )

  ensure_config_map-SameBut :
      (st : Store) → StoreSameBut proxy_key st (ensure_config_map execute server r st).1
  unfolding ensure_config_map render_config_map
  ensure_config_map-SameBut st = rendered _ _ _
    where
      rendered :
          (a b c : Got String)
          → StoreSameBut proxy_key st (ensure_rendered execute server r (with_configs r a b c) st).1
      rendered (error msg) b c = StoreSameBut-refl proxy_key st
      rendered (got x) (error msg) c = StoreSameBut-refl proxy_key st
      rendered (got x) (got y) (error msg) = StoreSameBut-refl proxy_key st
      rendered (got x) (got y) (got z) = (
        (λ k n. refl),
        get_or_create-SameBut "configmap" server.config_map_faults
            server.config_map_faults.get_error proxy_key (config_map_of r x y z) st.config_maps,
        (λ k n. refl),
        (λ k n. refl),
      )

  ensure_deployment-SameBut :
      (st : Store) → StoreSameBut proxy_key st (ensure_deployment execute server r st).1
  unfolding ensure_deployment render_deployment
  ensure_deployment-SameBut st =
      bind-StoreSameBut proxy_key st (stored_deployment execute server r st)
        (wait_for_deployment execute server r server.wait_deployment)
        (
          (λ k n. refl),
          (λ k n. refl),
          get_or_create-SameBut "deployment" server.deployment_faults
              server.deployment_faults.get_error proxy_key (render_deployment r) st.deployments,
          (λ k n. refl),
        )
        (waited server.wait_deployment)
    where
      waited :
          (o : Option String) (d : Deployment) (next : Store)
          → StoreSameBut proxy_key next (wait_for_deployment execute server r o d next).1
      waited none d next = StoreSameBut-refl proxy_key next
      waited (some msg) d next = StoreSameBut-refl proxy_key next

  read_cluster_ip-SameBut :
      (svc : ProxyService) (next : Store)
      → StoreSameBut proxy_key next (read_cluster_ip execute server r svc next).1
  read_cluster_ip-SameBut svc next = by_ip (svc.cluster_ip == "")
    where
      looked :
          (o : Option ProxyService) → StoreSameBut proxy_key next (ip_of execute server r o next).1
      looked none = StoreSameBut-refl proxy_key next
      looked (some s) = StoreSameBut-refl proxy_key next

      refreshed :
          (o : Option String) → StoreSameBut proxy_key next (refresh execute server r o next).1
      refreshed none = looked (lookup (service_key execute server r) next.services)
      refreshed (some msg) = StoreSameBut-refl proxy_key next

      by_ip :
          (b : Bool)
          → StoreSameBut proxy_key next
              (if b
                then refresh execute server r server.refresh_error next
                else (got svc.cluster_ip, next)).1
      by_ip true = refreshed server.refresh_error
      by_ip false = StoreSameBut-refl proxy_key next

  wait_for_service-SameBut :
      (svc : ProxyService) (next : Store)
      → StoreSameBut proxy_key next (wait_for_service execute server r svc next).1
  wait_for_service-SameBut svc next = waited (server.wait_service svc.cluster_ip)
    where
      waited :
          (g : Got String) → StoreSameBut proxy_key next (store_ip execute server r g svc next).1
      waited (error msg) = StoreSameBut-refl proxy_key next
      waited (got ip) =
          ((λ k n. refl), (λ k n. refl), (λ k n. refl), insert-SameBut proxy_key _ next.services)

  ensure_service-SameBut :
      (st : Store) → StoreSameBut proxy_key st (ensure_service execute server r st).1
  unfolding ensure_service
  ensure_service-SameBut st =
      bind-StoreSameBut proxy_key st
        (stored_service execute server r st >>= wait_for_service execute server r)
        (read_cluster_ip execute server r)
        (bind-StoreSameBut proxy_key st (stored_service execute server r st)
          (wait_for_service execute server r)
          (
            (λ k n. refl),
            (λ k n. refl),
            (λ k n. refl),
            get_or_create-SameBut "service" server.service_faults server.service_faults.get_error
                proxy_key _ st.services,
          )
          wait_for_service-SameBut)
        read_cluster_ip-SameBut

  pub ensure_proxy_exist-SameBut :
      (st : Store) → StoreSameBut proxy_key st (ensure_proxy_exist execute server r st).1
  unfolding ensure_proxy_exist
  ensure_proxy_exist-SameBut st =
      bind-StoreSameBut proxy_key st
        (ensure_sa execute server r st
          >>= (λ sa. ensure_config_map execute server r)
          >>= (λ cm. ensure_deployment execute server r))
        _
        (bind-StoreSameBut proxy_key st
          (ensure_sa execute server r st >>= (λ sa. ensure_config_map execute server r)) _
          (bind-StoreSameBut proxy_key st (ensure_sa execute server r st) _ (ensure_sa-SameBut st)
            (λ a next. ensure_config_map-SameBut next))
          (λ a next. ensure_deployment-SameBut next))
        (λ a next. ensure_service-SameBut next)
