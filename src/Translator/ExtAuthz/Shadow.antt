-- ===== src/Translator/ExtAuthz/Shadow.antt =====
-- The metadata that turns a filter on: buildExtAuthzConfig of pkg/translator/listener.go and the shadow rules
-- of pkg/translator/accesspolicy.go.
use kube_agentic_networking.Common.{
  ℕ, String, ◌≡◌, inl, inr, refl, sym, Option, none, some, List, [], ◌∷◌, Bool-cases, Option-cases,
  ◌∙◌, ap, concat,
}
use Prim.Native.String
use text.Mathlib.TextLemmas.{append_assoc}
use kube_agentic_networking.Api.{
  grpc, http_auth, other_protocol, AuthProtocol, got, ExternalAuthFilter,
}
use kube_agentic_networking.Translator.Envoy.{Principal, Policy, Rbac}
use kube_agentic_networking.Translator.Rbac.{
  add_policy_to_rbac_rules, add_policy_to_rbac_shadow_rules, shadow_prefix, add_external_rule,
}
use kube_agentic_networking.Translator.ExtAuthz.{
  is_service_kind, cluster_name_for_backend_ref_and_protocol, protocol_text, ExtAuthz,
  ext_authz_filter, build_ext_authz_config, with_service, with_body,
}

-- The metadata that turns a filter on: the filter that writes it, and its key.
abbrev pub metadata_key : ExtAuthz → String × List String
metadata_key f = (f.filter_enabled_metadata.filter, f.filter_enabled_metadata.path)

-- The key that Envoy's RBAC filter writes the name of the matching shadow policy to.
abbrev pub shadow_key : Rbac → String × List String
shadow_key c = (
  "envoy.filters.http.rbac",
  concat (c.shadow_rules_stat_prefix ∷ "shadow_effective_policy_id" ∷ []) ∷ [],
)

-- A filter is turned on by what the shadow rules of a rule with the digest write.
abbrev pub FollowsShadow : String → ExtAuthz → Type 0
FollowsShadow hash x =
    (c : Rbac) (name : String) (principals : List Principal)
    → metadata_key x ≡ shadow_key (add_external_rule (got hash) c name principals)

add_policy-prefix :
    (c : Rbac) (name : String) (policy : Policy)
    → (add_policy_to_rbac_rules c name policy).shadow_rules_stat_prefix ≡ c.shadow_rules_stat_prefix
unfolding add_policy_to_rbac_rules
add_policy-prefix c name policy = elim (Option-cases c.rules) [
  | inl e ↦ rw e refl
  | inr (r, e) ↦ rw e refl
]

add_shadow_policy-prefix :
    (c : Rbac) (name : String) (policy : Policy)
    → (add_policy_to_rbac_shadow_rules c name policy).shadow_rules_stat_prefix
      ≡ c.shadow_rules_stat_prefix
unfolding add_policy_to_rbac_shadow_rules
add_shadow_policy-prefix c name policy = elim (Option-cases c.shadow_rules) [
  | inl e ↦ rw e refl
  | inr (r, e) ↦ rw e refl
]

shadow_prefix-key :
    (hash : String)
    → concat ("access_policy_ext_authz_" ∷ hash ∷ "_shadow_effective_policy_id" ∷ [])
      ≡ concat (shadow_prefix hash ∷ "shadow_effective_policy_id" ∷ [])
unfolding concat
shadow_prefix-key hash =
    ap (λ z. String.◌++◌ "access_policy_ext_authz_" z)
      (sym (append_assoc hash "_" "shadow_effective_policy_id"))
    ∙ sym (
        append_assoc "access_policy_ext_authz_" (String.◌++◌ hash "_") "shadow_effective_policy_id")

add_external_rule-prefix :
    (hash : String) (c : Rbac) (name : String) (principals : List Principal)
    → (add_external_rule (got hash) c name principals).shadow_rules_stat_prefix ≡ shadow_prefix hash
add_external_rule-prefix hash c name principals =
    add_policy-prefix _ name _ ∙ add_shadow_policy-prefix _ name _

build_ext_authz_config-FollowsShadow :
    (hash : String) → FollowsShadow hash (build_ext_authz_config hash)
unfolding build_ext_authz_config
build_ext_authz_config-FollowsShadow hash c name principals =
    ap (λ z. ("envoy.filters.http.rbac", z ∷ []))
      (shadow_prefix-key hash
        ∙ ap (λ z. concat (z ∷ "shadow_effective_policy_id" ∷ []))
            (sym (add_external_rule-prefix hash c name principals)))

with_service-key :
    (f : ExternalAuthFilter) (namespace cluster : String) (p : AuthProtocol) (proto x : ExtAuthz)
    → with_service f namespace cluster p proto ≡ some x
    → metadata_key x ≡ metadata_key proto
with_service-key f namespace cluster grpc proto x h = sym (ap key_of h)
  where
    key_of : Option ExtAuthz → String × List String
    key_of none = ("", [])
    key_of (some y) = metadata_key y
with_service-key f namespace cluster (other_protocol s) proto x h =
    let e : proto ≡ x = cc in sym (ap metadata_key e)
with_service-key f namespace cluster http_auth proto x h = elim (Option-cases f.http_config) [
  | inl e ↦ let g = rw e at h in let k : proto ≡ x = cc in sym (ap metadata_key k)
  | inr (config, e) ↦ elim (Bool-cases (is_service_kind f.backend_ref.kind)) [
    | inl k ↦
        let g = rw (e, k) at h in sym (ap (elim [ none ↦ ("", []) | some y ↦ metadata_key y ]) g)
    | inr k ↦ let g = rw (e, k) at h in absurd (cc)
  ]
]

with_body-key : (body : Option ℕ) (x : ExtAuthz) → metadata_key (with_body body x) ≡ metadata_key x
with_body-key none x = refl
with_body-key (some size) x = refl

pub ext_authz_filter-key :
    (namespace : String) (f : ExternalAuthFilter) (hash : String) (x : ExtAuthz)
    → ext_authz_filter namespace f hash ≡ some x
    → FollowsShadow hash x
unfolding ext_authz_filter
ext_authz_filter-key namespace f hash x h c name principals =
    let cluster =
      cluster_name_for_backend_ref_and_protocol f.backend_ref namespace
        (protocol_text f.protocol) in
    elim (Option-cases
      (with_service f namespace cluster f.protocol (build_ext_authz_config hash))) [
        | inl e ↦ let g = rw (e, ext_authz_filter) at h in absurd (cc)
        | inr (y, e) ↦
            let g = rw (e, ext_authz_filter) at h in
            let k : with_body f.forward_body y ≡ x = cc in
            sym (ap metadata_key k)
            ∙ with_body-key f.forward_body y
            ∙ with_service-key f namespace cluster f.protocol (build_ext_authz_config hash) y e
            ∙ build_ext_authz_config-FollowsShadow hash c name principals
      ]
