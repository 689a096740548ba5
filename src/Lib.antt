-- ===== src/Lib.antt =====
-- kube-agentic-networking: the translation of Gateways to Envoy's configuration, and the sharding
-- of certificate requests.
--
-- The program is a controller for the Gateway API with two resources of its own: an XBackend,
-- which is a server of tools that speaks MCP, and an XAccessPolicy, which says who may call which
-- tools. It reads these resources and Gateways, HTTPRoutes, Services and ReferenceGrants from
-- listers, and writes Envoy's listeners, routes, clusters and filters. Beside it a signer issues
-- certificates to the workloads; its replicas share the work by rendezvous hashing over leases.
--
-- Which file models which part; a definition has the name of its Go function in snake case:
-- - Common and its children stand for Go's strings, slices and maps. A map is an association list.
--   Where the program ranges over a map, a parameter `order` stands for the order of iteration.
-- - Api and the files in Api stand for the fields of the Kubernetes objects that the program reads
--   (api/v0alpha0, and the types of the Gateway API and of core). A pointer is an `Option`, the
--   answer of a lister is `Got`.
-- - Rendezvous stands for pkg/infra/rendezvous/hasher.go. `live_replicas` and `max_replica` are
--   the two loops of `AssignedToThisReplica`; `ensure_lease` returns the write that `ensureLease`
--   sends. Its children are about the choice of a replica (Winner), who is assigned what
--   (Assignment), and the lease as the others read it (Heartbeat).
-- - Translator.Env stands for the listers of the `Translator` of pkg/translator/translator.go, as
--   parameters.
-- - Translator.Hostnames and Translator.Attachment stand for pkg/translator/routes.go and the
--   functions of pkg/translator/translator.go that decide which route attaches to which listener.
-- - Translator.Matches stands for the matches, filters and order of routes of
--   pkg/translator/httproute.go.
-- - Translator.Backends stands for pkg/translator/backend.go and pkg/translator/referencegrant.go.
-- - Translator.Rbac stands for pkg/translator/accesspolicy.go.
-- - Translator.Routes says how pkg/translator/httproute.go puts matches, filters, backends and
--   access policies together to Envoy's routes and the condition ResolvedRefs.
-- - Translator.ExtAuthz stands for external authorization, of pkg/translator/listener.go and
--   translator.go.
-- - Translator.Conditions and Translator.Conflicts stand for conflicts between listeners, of
--   pkg/translator/listener.go; the functions on conditions of apimachinery are a parameter with
--   laws.
-- - Translator.FilterChains stands for the filter chains of pkg/translator/listener.go.
-- - Translator.Snapshot and its children Routing, Programming and Building stand for
--   `buildEnvoyResourcesForGateway` of pkg/translator/translator.go: the maps of the function are
--   fields of a state, one child does the routes of a listener, one a listener, one the ports and
--   the result. Fetched, Backed, Served and Closed are about the clusters that routes name, Chains
--   and Plain about the filter chains of a port, Checked about the clusters that the filters of the
--   external authorization ask.
-- - Signer stands for pkg/infra/agentidentity: `make_cert` for the certificate, `handle_pcr` for a
--   request, Signer.Queue for the queue of requests, Signer.Bundles for the trust bundles.
-- - Proxy stands for pkg/infra/envoy: Proxy.Rendering for resourcerender.go, Proxy.Ensuring and
--   Proxy.Deletion for proxy.go, with the objects in the API server as a state.
-- - Controller.Gateways stands for the sync of Gateways of pkg/controller/controller.go; the proxies'
--   objects are its state, and its other calls are steps. Its child Syncing has `sync_gateway`.
-- - Controller.Finalizers, Controller.Sync, Controller.Services and Controller.Programmed stand
--   for the parts of pkg/controller that keep finalizers, that choose the Gateways to queue for a
--   Service, and that set the conditions of a Gateway.
-- - Files called Examples hold tests and witnesses, and Translator.Samples,
--   Translator.SampleConditions and Translator.SampleSort what they use.
--
-- How the parts interact: `validate_http_route` (Attachment) uses `is_allowed_by_hostname`
-- (Hostnames); `translate_http_route_to_envoy_routes` (Routes) calls `translate_http_route_match`
-- (Matches), `fetch_backend` (Backends) and `rbac_config_from_access_policy` (Rbac); Rbac and
-- ExtAuthz meet in a key of the metadata, which the shadow rules write and the filters read.
-- `build_envoy_resources_for_gateway` (Snapshot) calls all of these, FilterChains and Conflicts;
-- `handle_pcr` (Signer) asks `assigned_to_this_replica` (Rendezvous); the objects of Proxy mount
-- the certificates and the trust bundles of Signer; `sync_gateway` (Controller.Gateways) calls
-- `ensure_proxy_exist` and `delete_proxy` (Proxy), `build_envoy_resources_for_gateway`,
-- `set_gateway_conditions` and the functions on finalizers.
--
-- Bounds: hashes are numbers below 2 ^ 64 and are multiplied modulo 2 ^ 64; ports, weights and
-- sizes are cut to 32 bits where the program converts them; times are nanoseconds, without a
-- bound. Every loop is a recursion on the list that it goes through, except for the printing of a
-- number, whose fuel is the number plus one, which is more than its digits.
--
-- Not modelled: the handlers of pkg/controller that register with informers, and the queueing for
-- backends and policies; the xDS server; the generation and the encoding of keys (pkg/infra/agentidentity/
-- localca); the commands, the generated clients and the logs. JSON, SHA-256, X.509, PEM, the
-- execution of templates, selectors of labels, sort.Slice, the polling of the API server and its
-- answers are parameters.
pub mod Common
pub mod Api
pub mod Rendezvous
pub mod Signer
pub mod Proxy
pub mod Translator
pub mod Controller
