-- ===== src/Translator/Rbac/Examples.antt =====
-- Witnesses for the access policies.
use kube_agentic_networking.Common.{String, ◌≡◌, refl, true, false, [], ◌∷◌, In, any}
use kube_agentic_networking.Api.{XAccessPolicy, got}
use kube_agentic_networking.Translator.Samples.{sample, policy_in, tools_rule, mcp_backend}
use kube_agentic_networking.Translator.Envoy.{Policy, Rbac}
use kube_agentic_networking.Translator.Rbac.{
  rule_principals, plain_policy, permissions_of, translate_inline_tools_to_rbac_permission,
  translates_access_policy_to_rbac, targets_backend, rbac_config_from_access_policy, empty_rbac,
}
use kube_agentic_networking.Translator.Rbac.Rules.{policy_named, with_mcp, rbac_config-policies}

abbrev tools_policy : Policy
tools_policy =
    plain_policy (rule_principals "spiffe://cluster.local/ns/shop/sa/caller")
      (permissions_of (translate_inline_tools_to_rbac_permission ("add" ∷ [])))

rbac_config-policies_example :
    (any (λ p. any (targets_backend "mcp") p.target_refs) (policy_in "shop" tools_rule ∷ []) ≡ true
      → (q : XAccessPolicy) × (c : Rbac) × In q (policy_in "shop" tools_rule ∷ [])
        × (any (targets_backend "mcp") q.target_refs ≡ true)
        × (rbac_config_from_access_policy sample mcp_backend ≡ got c)
        × ((x : String)
            → policy_named x c ≡ with_mcp (translates_access_policy_to_rbac sample q) x))
    × (any (λ p. any (targets_backend "mcp") p.target_refs) (policy_in "shop" tools_rule ∷ [])
          ≡ false
        → rbac_config_from_access_policy sample mcp_backend ≡ got empty_rbac)
rbac_config-policies_example =
    rbac_config-policies sample mcp_backend (policy_in "shop" tools_rule ∷ []) refl
