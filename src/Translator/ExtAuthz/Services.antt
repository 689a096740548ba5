-- ===== src/Translator/ExtAuthz/Services.antt =====
-- The cluster through which a filter asks its service: buildExtAuthzFilters of pkg/translator/listener.go.
use mathlib.Core.Path.{subst}
use kube_agentic_networking.Common.{
  ℕ, String, ◌≡◌, refl, sym, inl, inr, Option, none, some, Bool-cases, Option-cases, some_inj,
  string_eq,
}
use kube_agentic_networking.Api.{AuthProtocol, grpc, http_auth, other_protocol, ExternalAuthFilter}
use kube_agentic_networking.Translator.Env.{Translator}
use kube_agentic_networking.Translator.ExtAuthz.{
  AuthService, no_service, grpc_service, http_service, ExtAuthz,
  cluster_name_for_backend_ref_and_protocol, protocol_text, is_service_kind, with_service,
  with_body, ext_authz_filter, build_ext_authz_config, auth_cluster,
}

-- The service of a filter is asked through the cluster of the name.
abbrev pub GoesTo : AuthService → String → Type 0
GoesTo no_service name = ⊥
GoesTo (grpc_service cluster authority) name = cluster ≡ name
GoesTo (http_service uri cluster path_prefix headers) name = cluster ≡ name

with_service-GoesTo :
    (f : ExternalAuthFilter) (namespace cluster : String) (p : AuthProtocol) (proto x : ExtAuthz)
    (name : String)
    → with_service f namespace cluster p proto ≡ some x
    → proto.services ≡ no_service
    → GoesTo x.services name
    → cluster ≡ name
with_service-GoesTo f namespace cluster grpc proto x name h start goes =
    subst (λ z. GoesTo z.services name) (sym (some_inj h)) goes
with_service-GoesTo f namespace cluster (other_protocol s) proto x name h start goes =
    absurd (
      subst (λ z. GoesTo z name) start
        (subst (λ z. GoesTo z.services name) (sym (some_inj h)) goes))
with_service-GoesTo f namespace cluster http_auth proto x name h start goes =
    elim (Option-cases f.http_config) [
      | inl e ↦
          let g : proto ≡ x = some_inj (rw e at h) in
          absurd
            (subst (λ z. GoesTo z name) start (subst (λ z. GoesTo z.services name) (sym g) goes))
      | inr (config, e) ↦ elim (Bool-cases (is_service_kind f.backend_ref.kind)) [
        | inl k ↦ subst (λ z. GoesTo z.services name) (sym (some_inj (rw (e, k) at h))) goes
        | inr k ↦ let g = rw (e, k) at h in absurd (cc)
      ]
    ]

with_body-services : (body : Option ℕ) (x : ExtAuthz) → (with_body body x).services ≡ x.services
with_body-services none x = refl
with_body-services (some size) x = refl

pub ext_authz_filter-GoesTo :
    (t : Translator) (namespace : String) (f : ExternalAuthFilter) (hash : String) (x : ExtAuthz)
    (name : String)
    → ext_authz_filter namespace f hash ≡ some x
    → GoesTo x.services name
    → (auth_cluster t namespace f).name ≡ name
unfolding ext_authz_filter build_ext_authz_config auth_cluster
ext_authz_filter-GoesTo t namespace f hash x name h goes =
    let cluster =
      cluster_name_for_backend_ref_and_protocol f.backend_ref namespace
        (protocol_text f.protocol) in
    elim (Option-cases
      (with_service f namespace cluster f.protocol (build_ext_authz_config hash))) [
        | inl e ↦ let g = rw (e, ext_authz_filter) at h in absurd (cc)
        | inr (y, e) ↦
            let g = rw (e, ext_authz_filter) at h in
            let k : with_body f.forward_body y ≡ x = cc in
            with_service-GoesTo f namespace cluster f.protocol (build_ext_authz_config hash) y name
              e refl
              (subst (λ z. GoesTo z name) (with_body-services f.forward_body y)
                (subst (λ z. GoesTo z.services name) (sym k) goes))
      ]
