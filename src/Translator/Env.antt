-- ===== src/Translator/Env.antt =====
-- The fields of `Translator` (pkg/translator/translator.go): the listers that it reads from, and
-- the functions of other packages that it calls. All are parameters of the model.
use kube_agentic_networking.Common.{String, Bool, Option, List}
use kube_agentic_networking.Api.{
  Got, LabelSelector, Service, HttpRoute, ReferenceGrant, XBackend, XAccessPolicy,
  ExternalAuthFilter,
}

pub record Translator : Type 0 where
  pub agentic_identity_trust_domain : String
  -- The labels of a namespace; the lister itself may be nil.
  pub namespace_lister : Option (String → Got (List (String × String)))
  -- metav1.LabelSelectorAsSelector, with the `Matches` of what it returns.
  pub as_selector : LabelSelector → Got (List (String × String) → Bool)
  -- Get by namespace and name.
  pub service_get : String → String → Got Service
  pub backend_get : String → String → Got XBackend
  pub http_routes : Got (List HttpRoute)
  -- By namespace; the lister itself may be nil.
  pub reference_grants : Option (String → Got (List ReferenceGrant))
  -- By namespace, and of all namespaces.
  pub access_policies_in : String → Got (List XAccessPolicy)
  pub access_policies : Got (List XAccessPolicy)
  -- json.Marshal and sha256.Sum256 over the filter, in hexadecimal.
  pub external_auth_digest : ExternalAuthFilter → Got String
