-- ===== src/Proxy/Restored.antt =====
-- Deleting a proxy undoes what creating it did: EnsureProxyExist and DeleteProxy of
-- pkg/infra/envoy/proxy.go.
use mathlib.Core.Path.{subst}
use kube_agentic_networking.Common.{
  ap, String, ◌≡◌, refl, sym, ◌∙◌, none, inl, inr, lookup, remove, lookup-remove, name_eq,
  Bool-cases, if◌then◌else◌,
}
use kube_agentic_networking.Api.{got, Gateway}
use kube_agentic_networking.Proxy.Rendering.{Execute, proxy_name, new_resource_manager}
use kube_agentic_networking.Proxy.Ensuring.{Objects, Store, Server, ensure_proxy_exist}
use kube_agentic_networking.Proxy.Deletion.{DeleteFaults, delete_proxy}
use kube_agentic_networking.Proxy.Kept.{SameBut, ensure_proxy_exist-SameBut}

-- Two maps bind every key to the same.
abbrev pub Same : {A : Type 0} → Objects A → Objects A → Type 0
Same m n = (k : String × String) → lookup k m ≡ lookup k n

abbrev pub StoreSame : Store → Store → Type 0
StoreSame st new =
    Same st.service_accounts new.service_accounts
    × Same st.config_maps new.config_maps
    × Same st.deployments new.deployments
    × Same st.services new.services

-- No object of the store has the key.
abbrev pub IsFree : String × String → Store → Type 0
IsFree key st =
    (lookup key st.service_accounts ≡ none)
    × (lookup key st.config_maps ≡ none)
    × (lookup key st.deployments ≡ none)
    × (lookup key st.services ≡ none)

remove-Same :
    {A : Type 0} (key : String × String) (m n : Objects A)
    → lookup key m ≡ none
    → SameBut key m n
    → Same m (remove key n)
remove-Same key m n free same k = elim (Bool-cases (name_eq.beq key k)) [
  | inl t ↦
      let gone : lookup k (remove key n) ≡ none =
        lookup-remove key k n ∙ ap (λ z. if z then none else lookup k n) t in
      subst (λ z. lookup z m ≡ none) ((name_eq.beq_iff key k).0 t) free ∙ sym gone
  | inr f ↦
      let kept : lookup k (remove key n) ≡ lookup k n =
        lookup-remove key k n ∙ ap (λ z. if z then none else lookup k n) f in
      same k (λ e. let g = (name_eq.beq_iff key k).1 (sym e) in cc) ∙ sym kept
]

abbrev pub no_faults : DeleteFaults
no_faults = record {
  deployment_error = none;
  service_error = none;
  config_map_error = none;
  service_account_error = none;
}

-- Where a store has none of the objects of a Gateway's proxy, creating the proxy, whatever the API server
-- answers and wherever it stops, and then deleting it, where no call to delete fails, returns without an error
-- and leaves under every namespace and name the objects that were there before.
pub delete_proxy-restores :
    (digest : String → String) (gw : Gateway) (image trust_domain : String) (execute : Execute)
    (server : Server) (st : Store)
    → IsFree (gw.meta.namespace, proxy_name digest gw.meta.namespace gw.meta.name) st
    → let ensured =
        ensure_proxy_exist execute server (new_resource_manager digest gw image trust_domain) st in
      let deleted = delete_proxy digest no_faults gw.meta.namespace gw.meta.name ensured.1 in
      (deleted.0 ≡ got tt) × StoreSame st deleted.1
unfolding delete_proxy new_resource_manager
delete_proxy-restores digest gw image trust_domain execute server st (a, b, c, d) =
    let (p, q, r, s) =
      ensure_proxy_exist-SameBut execute server (new_resource_manager digest gw image trust_domain)
        st in
    (
      refl,
      (remove-Same _ _ _ a p, remove-Same _ _ _ b q, remove-Same _ _ _ c r, remove-Same _ _ _ d s),
    )
