-- ===== src/Translator/Rbac/Rules.antt =====
-- What the policies of the RBAC configuration are: translatesAccessPolicyToRBAC and
-- rbacConfigFromAccessPolicy of pkg/translator/accesspolicy.go.
use kube_agentic_networking.Common.{
  String, true, false, ◌≡◌, ◌⊎◌, inl, inr, refl, Option, none, some, List, [], ◌∷◌, if◌then◌else◌,
  Bool-cases, Option-cases, In, any, ◌==◌, lookup, lookup-insert, string_eq,
}
use kube_agentic_networking.Api.{got, XBackend, XAccessPolicy, AccessRule}
use kube_agentic_networking.Translator.Env.{Translator}
use kube_agentic_networking.Translator.Envoy.{Principal, Policy, Rbac}
use kube_agentic_networking.Translator.Rbac.{
  add_policy_to_rbac_rules, rule_source, rule_principals, empty_rbac,
  translates_access_policy_to_rbac, find_access_policy_for_backend, first_policy, targets_backend,
  add_mcp_policies, rbac_config_from_access_policy, allow_mcp_session_close_policy_name,
  allow_anyone_to_initialize_and_list_tools_policy_name, allow_http_get,
  build_allow_mcp_session_close_policy, build_allow_anyone_to_initialize_and_list_tools_policy,
  build_allow_http_get_policy,
}

-- The policy that the rules of a configuration have under a name.
unfoldable pub policy_named : String → Rbac → Option Policy
policy_named name c = elim c.rules [ none ↦ none | some r ↦ lookup name r.policies ]

add_policy-lookup :
    (c : Rbac) (name x : String) (p : Policy)
    → policy_named x (add_policy_to_rbac_rules c name p)
      ≡ (if name == x then some p else policy_named x c)
unfolding policy_named add_policy_to_rbac_rules lookup
add_policy-lookup c name x p = elim (Option-cases c.rules) [
  | inl e ↦ rw e
  | inr (r, e) ↦ rw e (lookup-insert name x p r.policies)
]

module _ (t : Translator) (namespace : String) where
  abbrev principals_for : AccessRule → List Principal
  principals_for rule =
      rule_principals (rule_source t.agentic_identity_trust_domain namespace rule.source)

  -- A rule leaves the policies as they are, or sets the one of its name.
  abbrev Sets : Rbac → Rbac → AccessRule → Type 0
  Sets c d rule =
      ((x : String) → policy_named x d ≡ policy_named x c)
      ⊎ ((p : Policy) × (p.principals ≡ principals_for rule)
          × ((x : String)
              → policy_named x d ≡ (if rule.name == x then some p else policy_named x c)))

-- The policies of a backend that is targeted: the built-in ones under the three reserved names, and
-- the rules' under the others.
abbrev pub with_mcp : Rbac → String → Option Policy
with_mcp c x =
    if allow_http_get == x
    then some build_allow_http_get_policy
    else if allow_anyone_to_initialize_and_list_tools_policy_name == x
    then some build_allow_anyone_to_initialize_and_list_tools_policy
    else if allow_mcp_session_close_policy_name == x
    then some build_allow_mcp_session_close_policy
    else policy_named x c

add_mcp_policies-named :
    (c : Rbac) (x : String) → policy_named x (add_mcp_policies c) ≡ with_mcp c x
unfolding add_mcp_policies
add_mcp_policies-named c x = rw (add_policy-lookup, add_policy-lookup, add_policy-lookup)

first_policy-some :
    (name : String) (ps : List XAccessPolicy)
    → any (λ p. any (targets_backend name) p.target_refs) ps ≡ true
    → (q : XAccessPolicy) × (first_policy name ps ≡ some q)
      × In q ps
      × (any (targets_backend name) q.target_refs ≡ true)
first_policy-some name [] h = absurd (cc)
first_policy-some name (p ∷ ps) h = elim (Bool-cases (any (targets_backend name) p.target_refs)) [
  | inl e ↦ rw e (p, refl, inl refl, e)
  | inr e ↦ let (q, f, i, g) = first_policy-some name ps (rw e at h) in rw e (q, f, inr i, g)
]

first_policy-none :
    (name : String) (ps : List XAccessPolicy)
    → any (λ p. any (targets_backend name) p.target_refs) ps ≡ false
    → first_policy name ps ≡ none
first_policy-none name [] h = refl
first_policy-none name (p ∷ ps) h = elim (Bool-cases (any (targets_backend name) p.target_refs)) [
  | inl e ↦ absurd (let g = rw e at h in cc)
  | inr e ↦ rw e (first_policy-none name ps (rw e at h))
]

-- Where the policies of the backend's namespace can be listed: if one of them targets the backend,
-- the policies of the configuration are, by name, those of the translation of one that does,
-- except under the three reserved names, which have the built-in policies also where rules have
-- these names; if none targets the backend, the configuration is empty.
pub rbac_config-policies :
    (t : Translator) (b : XBackend) (ps : List XAccessPolicy)
    → t.access_policies_in b.meta.namespace ≡ got ps
    → (any (λ p. any (targets_backend b.meta.name) p.target_refs) ps ≡ true
        → (q : XAccessPolicy) × (c : Rbac) × In q ps
          × (any (targets_backend b.meta.name) q.target_refs ≡ true)
          × (rbac_config_from_access_policy t b ≡ got c)
          × ((x : String) → policy_named x c ≡ with_mcp (translates_access_policy_to_rbac t q) x))
      × (any (λ p. any (targets_backend b.meta.name) p.target_refs) ps ≡ false
          → rbac_config_from_access_policy t b ≡ got empty_rbac)
unfolding rbac_config_from_access_policy find_access_policy_for_backend
rbac_config-policies t b ps e = (
  λ h.
      let (q, f, i, g) = first_policy-some b.meta.name ps h in
      (
        q,
        add_mcp_policies (translates_access_policy_to_rbac t q),
        i,
        g,
        rw (e, f),
        add_mcp_policies-named _,
      ),
  λ h. rw (e, first_policy-none b.meta.name ps h),
)
