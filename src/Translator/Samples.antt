-- ===== src/Translator/Samples.antt =====
-- Concrete objects for the witnesses of the translator.
use kube_agentic_networking.Common.{String, ◌==◌, if◌then◌else◌, ℕ, Option, none, some, [], ◌∷◌}
use kube_agentic_networking.Api.{
  ObjectMeta, got, error, Service, Listener, http, Gateway, ParentReference, BackendRef,
  HttpRouteRule, HttpRoute, XBackend, XAccessPolicy, AccessRule, Source, spiffe, external_auth,
  inline_tools, ExternalAuthFilter, grpc,
}
use kube_agentic_networking.Translator.Env.{Translator}

abbrev pub meta_of : String → String → ObjectMeta
meta_of namespace name = record {
  name = name;
  namespace = namespace;
  generation = 3;
  deletion_timestamp = none;
  finalizers = [];
  labels = [];
}

abbrev pub store_service : Service
store_service = record { meta = meta_of "shop" "store"; ports = 8080 ∷ [] }

abbrev pub mcp_backend : XBackend
mcp_backend = record {
  meta = meta_of "shop" "mcp";
  mcp = record {
    service_name = none;
    hostname = some "mcp.example.com";
    port = 443;
    path = "/mcp";
  };
}

abbrev pub empty_backend : XBackend
empty_backend = record {
  meta = meta_of "shop" "empty";
  mcp = record { service_name = none; hostname = none; port = 443; path = "/mcp" };
}

abbrev pub auth_filter : ExternalAuthFilter
auth_filter = record {
  protocol = grpc;
  backend_ref = record { kind = none; name = "authz"; namespace = none; port = some 9000 };
  grpc_config = none;
  http_config = none;
  forward_body = none;
}

abbrev pub caller : Source
caller = record {
  type = spiffe;
  spiffe_id = some "spiffe://cluster.local/ns/shop/sa/caller";
  account = none;
}

abbrev pub tools_rule : AccessRule
tools_rule = record {
  name = "tools";
  source = caller;
  authorization = some (record { type = inline_tools; tools = "add" ∷ []; filter = none });
}

abbrev pub auth_rule : AccessRule
auth_rule = record {
  name = "ask";
  source = caller;
  authorization = some (record { type = external_auth; tools = []; filter = some auth_filter });
}

abbrev pub policy_in : String → AccessRule → XAccessPolicy
policy_in namespace rule = record {
  meta = meta_of namespace "policy";
  target_refs =
      record { group = "agentic.networking.x-k8s.io"; kind = "XBackend"; name = "mcp" } ∷ [];
  rules = rule ∷ [];
}

abbrev pub sample : Translator
sample = record {
  agentic_identity_trust_domain = "cluster.local";
  namespace_lister = none;
  as_selector = λ s. error "no selector";
  service_get = λ ns name. if name == "store" then got store_service else error "not found";
  backend_get = λ ns name. if name == "mcp" then got mcp_backend else error "not found";
  http_routes = got [];
  reference_grants = none;
  access_policies_in = λ ns. got (policy_in "shop" tools_rule ∷ []);
  access_policies = got (policy_in "shop" auth_rule ∷ policy_in "bank" auth_rule ∷ []);
  external_auth_digest = λ f. got "c0ffee";
}

abbrev pub web : Listener
web = record {
  name = "web";
  hostname = some "*.example.com";
  port = 80;
  protocol = http;
  allowed_routes = none;
}

abbrev pub front : Gateway
front = record {
  meta = meta_of "shop" "front";
  gateway_class_name = "agentic";
  listeners = web ∷ [];
}

abbrev pub to_front : Option String → ParentReference
to_front section = record {
  group = none;
  kind = none;
  namespace = none;
  name = "front";
  section_name = section;
  port = none;
}

abbrev pub to_service : Option ℕ → BackendRef
to_service weight = record {
  group = none;
  kind = none;
  namespace = none;
  name = "store";
  port = none;
  weight = weight;
}

abbrev pub store_rule : HttpRouteRule
store_rule = record { matches = []; filters = []; backend_refs = to_service none ∷ [] }

abbrev pub store_route : HttpRoute
store_route = record {
  meta = meta_of "shop" "store";
  parent_refs = to_front none ∷ [];
  hostnames = "store.example.com" ∷ [];
  rules = store_rule ∷ [];
}
