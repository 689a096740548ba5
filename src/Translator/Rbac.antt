-- ===== src/Translator/Rbac.antt =====
-- Access policies as RBAC configuration: pkg/translator/accesspolicy.go.
pub mod Rules
mod Examples
use kube_agentic_networking.Common.{
  ℕ, String, Bool, true, false, ◌&&◌, Option, none, some, List, [], ◌∷◌, ◌==◌, if◌then◌else◌, any,
  is_empty, insert, string_eq, concat, map,
}
use kube_agentic_networking.Api.{
  Got, got, error, XBackend, XAccessPolicy, TargetRef, AccessRule, SourceType, spiffe,
  service_account, other_source, Source, ServiceAccountSource, AuthorizationRule, RuleType,
  inline_tools, external_auth, other_rule, ExternalAuthFilter,
}
use kube_agentic_networking.Translator.Env.{Translator}
use kube_agentic_networking.Translator.Envoy.{
  HeaderMatcher, string_exact, present, ValueMatcher, string_match, or_match, MetadataMatcher,
  Principal, any_principal, authenticated, and_headers, Permission, any_permission,
  header_permission, sourced_metadata, and_rules, Policy, allow, deny, RbacRules, Rbac,
}

abbrev pub allow_mcp_session_close_policy_name : String
allow_mcp_session_close_policy_name = "allow-mcp-session-close"

abbrev pub allow_anyone_to_initialize_and_list_tools_policy_name : String
allow_anyone_to_initialize_and_list_tools_policy_name = "allow-anyone-to-initialize-and-list-tools"

abbrev pub allow_http_get : String
allow_http_get = "allow-http-get"

abbrev pub mcp_proxy_filter_name : String
mcp_proxy_filter_name = "mcp_proxy"

unfoldable pub convert_sa_to_spiffe_id : String → String → String → String
convert_sa_to_spiffe_id trust_domain namespace sa_name =
    concat ("spiffe://" ∷ trust_domain ∷ "/ns/" ∷ namespace ∷ "/sa/" ∷ sa_name ∷ [])

unfoldable pub build_any_principal : Principal
build_any_principal = any_principal

unfoldable pub build_any_permission : Permission
build_any_permission = any_permission

abbrev pub tools_call_matcher : MetadataMatcher
tools_call_matcher = record {
  filter = mcp_proxy_filter_name;
  path = "method" ∷ [];
  value = string_match "tools/call";
}

-- buildTooslCallMethodPermission
unfoldable pub build_tools_call_method_permission : Permission
build_tools_call_method_permission = sourced_metadata tools_call_matcher

unfoldable pub build_allow_mcp_session_close_policy : Policy
unfolding build_any_permission
build_allow_mcp_session_close_policy = record {
  principals =
      and_headers (
        record { name = ":method"; specifier = string_exact "DELETE" }
        ∷ record { name = "mcp-session-id"; specifier = present true }
        ∷ [])
      ∷ [];
  permissions = build_any_permission ∷ [];
}

unfoldable pub build_allow_anyone_to_initialize_and_list_tools_policy : Policy
unfolding build_any_principal
build_allow_anyone_to_initialize_and_list_tools_policy = record {
  principals = build_any_principal ∷ [];
  permissions =
      and_rules (
        record {
          filter = mcp_proxy_filter_name;
          path = "method" ∷ [];
          value = or_match ("initialize" ∷ "notifications/initialized" ∷ "tools/list" ∷ []);
        }
        ∷ [])
      ∷ [];
}

unfoldable pub build_allow_http_get_policy : Policy
unfolding build_any_principal
build_allow_http_get_policy = record {
  principals = build_any_principal ∷ [];
  permissions =
      header_permission (record { name = ":method"; specifier = string_exact "GET" }) ∷ [];
}

-- The matcher of the tools' names: one is matched by itself, more by an `or`.
abbrev pub tools_matcher : String → List String → ValueMatcher
tools_matcher tool [] = string_match tool
tools_matcher tool (t ∷ rest) = or_match (tool ∷ t ∷ rest)

unfoldable pub translate_inline_tools_to_rbac_permission : List String → Option Permission
translate_inline_tools_to_rbac_permission [] = none
translate_inline_tools_to_rbac_permission (tool ∷ rest) = some (
    and_rules (
      tools_call_matcher
      ∷ record {
        filter = mcp_proxy_filter_name;
        path = "params" ∷ "name" ∷ [];
        value = tools_matcher tool rest;
      }
      ∷ []))

abbrev pub empty_rbac : Rbac
empty_rbac = record { rules = none; shadow_rules = none; shadow_rules_stat_prefix = "" }

unfoldable pub add_policy_to_rbac_rules : Rbac → String → Policy → Rbac
unfolding insert
add_policy_to_rbac_rules c name policy = elim c.rules [
  | none ↦ record c { rules = some (record { action = allow; policies = (name, policy) ∷ [] }) }
  | some r ↦ record c { rules = some (record r { policies = insert name policy r.policies }) }
]

unfoldable pub add_policy_to_rbac_shadow_rules : Rbac → String → Policy → Rbac
unfolding insert
add_policy_to_rbac_shadow_rules c name policy = elim c.shadow_rules [
  | none ↦ record c {
    shadow_rules = some (record { action = deny; policies = (name, policy) ∷ [] });
  }
  | some r ↦ record c {
    shadow_rules = some (record r { policies = insert name policy r.policies });
  }
]

abbrev pub account_source : String → String → ServiceAccountSource → String
account_source trust_domain policy_namespace sa =
    convert_sa_to_spiffe_id trust_domain
      (if sa.namespace == "" then policy_namespace else sa.namespace) sa.name

-- The switch on the type of the rule's source.
abbrev pub source_by_type : String → String → Source → SourceType → String
source_by_type trust_domain policy_namespace s spiffe = elim s.spiffe_id [
  | none ↦ ""
  | some id ↦ id
]
source_by_type trust_domain policy_namespace s service_account = elim s.account [
  | none ↦ ""
  | some sa ↦ account_source trust_domain policy_namespace sa
]
source_by_type trust_domain policy_namespace s (other_source type) = ""

-- `source` after the switch.
unfoldable pub rule_source : String → String → Source → String
unfolding convert_sa_to_spiffe_id
rule_source trust_domain policy_namespace s = source_by_type trust_domain policy_namespace s s.type

unfoldable pub rule_principals : String → List Principal
unfolding build_any_principal
rule_principals source =
    if source == "" then build_any_principal ∷ [] else authenticated source ∷ []

abbrev pub permissions_of : Option Permission → List Permission
permissions_of none = []
permissions_of (some p) = p ∷ []

abbrev pub plain_policy : List Principal → List Permission → Policy
plain_policy principals permissions = record { principals = principals; permissions = permissions }

abbrev pub shadow_prefix : String → String
shadow_prefix hash = concat ("access_policy_ext_authz_" ∷ hash ∷ "_" ∷ [])

-- A rule with external authorization, once its digest is known; an error skips the rule.
abbrev pub add_external_rule : Got String → Rbac → String → List Principal → Rbac
add_external_rule (error msg) c name principals = c
add_external_rule (got hash) c name principals =
    let policy = plain_policy principals (build_tools_call_method_permission ∷ []) in
    let d = record c { shadow_rules_stat_prefix = shadow_prefix hash } in
    add_policy_to_rbac_rules (add_policy_to_rbac_shadow_rules d name policy) name policy

abbrev pub add_authorized :
    Translator → Rbac → String → List Principal → AuthorizationRule → RuleType → Rbac
add_authorized t c name principals a inline_tools =
    add_policy_to_rbac_rules c name
      (plain_policy principals (permissions_of (translate_inline_tools_to_rbac_permission a.tools)))
add_authorized t c name principals a external_auth = elim a.filter [
  | none ↦ add_policy_to_rbac_rules c name (plain_policy principals [])
  | some f ↦ add_external_rule (t.external_auth_digest f) c name principals
]
add_authorized t c name principals a (other_rule type) =
    add_policy_to_rbac_rules c name (plain_policy principals [])

-- The body of the loop over the rules of a policy.
unfoldable pub add_rule : Translator → String → Rbac → AccessRule → Rbac
unfolding rule_source rule_principals add_policy_to_rbac_rules add_policy_to_rbac_shadow_rules
    translate_inline_tools_to_rbac_permission build_tools_call_method_permission
add_rule t policy_namespace c rule =
    let principals =
      rule_principals (rule_source t.agentic_identity_trust_domain policy_namespace rule.source) in
    elim rule.authorization [
      | none ↦ add_policy_to_rbac_rules c rule.name (plain_policy principals [])
      | some a ↦ add_authorized t c rule.name principals a a.type
    ]

unfoldable pub add_rules : Translator → String → Rbac → List AccessRule → Rbac
unfolding add_rule
add_rules t policy_namespace c [] = c
add_rules t policy_namespace c (rule ∷ rest) =
    add_rules t policy_namespace (add_rule t policy_namespace c rule) rest

unfoldable pub translates_access_policy_to_rbac : Translator → XAccessPolicy → Rbac
unfolding add_rules
translates_access_policy_to_rbac t p = add_rules t p.meta.namespace empty_rbac p.rules

abbrev pub targets_backend : String → TargetRef → Bool
targets_backend backend_name ref = ref.kind == "XBackend" && ref.name == backend_name

abbrev pub first_policy : String → List XAccessPolicy → Option XAccessPolicy
first_policy backend_name [] = none
first_policy backend_name (p ∷ rest) =
    if any (targets_backend backend_name) p.target_refs
    then some p
    else first_policy backend_name rest

abbrev pub find_in : String → String → Got (List XAccessPolicy) → Got (Option XAccessPolicy)
find_in namespace name (error msg) =
    error (concat ("failed to list AccessPolicies in namespace " ∷ namespace ∷ ": " ∷ msg ∷ []))
find_in namespace name (got policies) = got (first_policy name policies)

unfoldable pub find_access_policy_for_backend : Translator → XBackend → Got (Option XAccessPolicy)
find_access_policy_for_backend t b =
    find_in b.meta.namespace b.meta.name (t.access_policies_in b.meta.namespace)

-- The policies that every backend with an access policy gets.
unfoldable pub add_mcp_policies : Rbac → Rbac
unfolding add_policy_to_rbac_rules build_allow_mcp_session_close_policy
    build_allow_anyone_to_initialize_and_list_tools_policy build_allow_http_get_policy
add_mcp_policies c =
    let closed =
      add_policy_to_rbac_rules c allow_mcp_session_close_policy_name
        build_allow_mcp_session_close_policy in
    let listed =
      add_policy_to_rbac_rules closed allow_anyone_to_initialize_and_list_tools_policy_name
        build_allow_anyone_to_initialize_and_list_tools_policy in
    add_policy_to_rbac_rules listed allow_http_get build_allow_http_get_policy

abbrev pub rbac_of : Translator → Got (Option XAccessPolicy) → Got Rbac
rbac_of t (error msg) = error msg
rbac_of t (got none) = got empty_rbac
rbac_of t (got (some p)) = got (add_mcp_policies (translates_access_policy_to_rbac t p))

unfoldable pub rbac_config_from_access_policy : Translator → XBackend → Got Rbac
unfolding find_access_policy_for_backend translates_access_policy_to_rbac add_mcp_policies
rbac_config_from_access_policy t b = rbac_of t (find_access_policy_for_backend t b)
