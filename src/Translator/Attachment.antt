-- ===== src/Translator/Attachment.antt =====
-- Which routes attach to which listeners: isAllowedByListener (pkg/translator/routes.go),
-- getSupportedKinds, getHTTPRoutesForGateway and validateHTTPRoute (pkg/translator/translator.go).
pub mod Kinds
pub mod Statuses
pub mod Reports
mod Examples
use kube_agentic_networking.Common.{
  ℕ, String, Bool, true, false, not, ◌&&◌, ◌||◌, Option, none, some, List, [], ◌∷◌, ◌++◌, ◌==◌, eqb,
  if◌then◌else◌, or_default, any, is_empty, insert, values, string_eq,
}
use kube_agentic_networking.Api.{
  Got, got, error, LabelSelector, Protocol, http, https, FromNamespaces, all, same, selector,
  none_from, unknown, AllowedRoutes, RouteGroupKind, Listener, Gateway, ParentReference, HttpRoute,
  RouteObject, http_route, grpc_route, other_object, ObjectMeta, Condition,
}
use kube_agentic_networking.Translator.Env.{Translator}
use kube_agentic_networking.Translator.Hostnames.{is_allowed_by_hostname}

abbrev pub group_name : String
group_name = "gateway.networking.k8s.io"

abbrev pub route_meta : RouteObject → ObjectMeta
route_meta (http_route r) = r.meta
route_meta (grpc_route m hostnames) = m
route_meta (other_object m) = m

-- The group and kind of the types that the switch names.
abbrev pub route_group_kind : RouteObject → Option (String × String)
route_group_kind (http_route r) = some (group_name, "HTTPRoute")
route_group_kind (grpc_route m hostnames) = some (group_name, "GRPCRoute")
route_group_kind (other_object m) = none

abbrev matches_labels : Got (List (String × String) → Bool) → Got (List (String × String)) → Bool
matches_labels (error msg) ns_labels = false
matches_labels (got matches) (error msg) = false
matches_labels (got matches) (got ns_labels) = matches ns_labels

-- The case `Selector` of the switch.
abbrev pub selected : Translator → Option LabelSelector → String → Bool
selected t none namespace = false
selected t (some sel) namespace = elim t.namespace_lister [
  | none ↦ false
  | some get ↦ matches_labels (t.as_selector sel) (get namespace)
]

-- The switch on `effectiveFrom`.
abbrev pub from_allows : Translator → Option LabelSelector → FromNamespaces → String → String → Bool
from_allows t sel all route_namespace gateway_namespace = true
from_allows t sel same route_namespace gateway_namespace = route_namespace == gateway_namespace
from_allows t sel selector route_namespace gateway_namespace = selected t sel route_namespace
from_allows t sel none_from route_namespace gateway_namespace = false
from_allows t sel (unknown s) route_namespace gateway_namespace = false

abbrev pub namespace_allows : Translator → AllowedRoutes → String → String → Bool
namespace_allows t allowed route_namespace gateway_namespace = elim allowed.namespaces [
  | none ↦ from_allows t none same route_namespace gateway_namespace
  | some ns ↦ from_allows t ns.selector (or_default same ns.from) route_namespace gateway_namespace
]

abbrev pub allowed_group : RouteGroupKind → String
allowed_group k = elim k.group [ none ↦ group_name | some g ↦ if g == "" then group_name else g ]

abbrev pub kinds_allow : List RouteGroupKind → Option (String × String) → Bool
kinds_allow [] route = true
kinds_allow (k ∷ rest) none = false
kinds_allow (k ∷ rest) (some (group, kind)) =
    any (λ a. kind == a.kind && group == allowed_group a) (k ∷ rest)

unfoldable pub is_allowed_by_listener : Translator → Gateway → Listener → RouteObject → Bool
is_allowed_by_listener t gateway listener route =
    let route_namespace = (route_meta route).namespace in
    elim listener.allowed_routes [
      | none ↦ route_namespace == gateway.meta.namespace
      | some allowed ↦
          namespace_allows t allowed route_namespace gateway.meta.namespace
          && kinds_allow allowed.kinds (route_group_kind route)
    ]

abbrev pub group_is_gateway : Option String → Bool
group_is_gateway none = true
group_is_gateway (some g) = g == group_name

-- SupportedKinds.Has
abbrev pub is_supported_kind : RouteGroupKind → Bool
is_supported_kind k = group_is_gateway k.group && k.kind == "HTTPRoute"

-- The loop over the kinds that a listener names.
unfoldable pub collect_kinds : List RouteGroupKind → List RouteGroupKind × Bool
collect_kinds [] = ([], true)
collect_kinds (k ∷ rest) =
    let (kinds, valid) = collect_kinds rest in
    if is_supported_kind k
    then (record { group = some group_name; kind = k.kind } ∷ kinds, valid)
    else (kinds, false)

abbrev pub is_http : Protocol → Bool
is_http http = true
is_http https = true
is_http _ = false

abbrev pub default_kinds : Protocol → List RouteGroupKind
default_kinds p =
    if is_http p then record { group = some group_name; kind = "HTTPRoute" } ∷ [] else []

abbrev pub listed_kinds : Option AllowedRoutes → List RouteGroupKind
listed_kinds none = []
listed_kinds (some allowed) = allowed.kinds

unfoldable pub get_supported_kinds : Listener → List RouteGroupKind × Bool
unfolding collect_kinds
get_supported_kinds listener =
    let kinds = listed_kinds listener.allowed_routes in
    if is_empty kinds then (default_kinds listener.protocol, true) else collect_kinds kinds

-- A parent reference names this Gateway; its namespace defaults to the route's.
unfoldable pub targets : Gateway → HttpRoute → ParentReference → Bool
targets gateway route ref =
    ref.name == gateway.meta.name
    && or_default route.meta.namespace ref.namespace == gateway.meta.namespace

abbrev referencing : Gateway → List HttpRoute → List HttpRoute
referencing gateway [] = []
referencing gateway (r ∷ rest) =
    let later = referencing gateway rest in
    if any (targets gateway r) r.parent_refs then r ∷ later else later

unfoldable pub get_http_routes_for_gateway : Translator → Gateway → List HttpRoute
unfolding targets
get_http_routes_for_gateway t gateway = elim t.http_routes [
  | error msg ↦ []
  | got routes ↦ referencing gateway routes
]

-- A condition of the reference: the section and the port, where it names them.
abbrev pub opt_matches_text : Option String → String → Bool
opt_matches_text none name = true
opt_matches_text (some s) name = s == name

abbrev pub opt_matches_port : Option ℕ → ℕ → Bool
opt_matches_port none port = true
opt_matches_port (some p) port = eqb p port

unfoldable pub ref_selects : ParentReference → Listener → Bool
ref_selects ref listener =
    opt_matches_text ref.section_name listener.name && opt_matches_port ref.port listener.port

-- What the body of the loop over the listeners finds about one listener.
pub data Verdict : Type 0 where
  not_selected not_allowed no_hostname accepts : Verdict

unfoldable pub verdict : Translator → Gateway → HttpRoute → ParentReference → Listener → Verdict
unfolding ref_selects is_allowed_by_listener is_allowed_by_hostname
verdict t gateway route ref l =
    if ref_selects ref l
    then (if not (is_allowed_by_listener t gateway l (http_route route))
        then not_allowed
        else if not (is_allowed_by_hostname l (http_route route))
        then no_hostname
        else accepts)
    else not_selected

-- rejectionReason
abbrev pub reason_after : Verdict → String → String
reason_after not_allowed reason = "NotAllowedByListeners"
reason_after no_hostname reason = "NoMatchingListenerHostname"
reason_after _ reason = reason

-- listenersForThisRef
abbrev pub keep : Verdict → Listener → List Listener → List Listener
keep accepts l listeners = l ∷ listeners
keep _ l listeners = listeners

-- `listenersForThisRef` and `rejectionReason` after the loop over the listeners from `reason` on.
unfoldable pub scan_listeners :
    Translator
    → Gateway
    → HttpRoute
    → ParentReference
    → String
    → List Listener
    → List Listener × String
unfolding verdict
scan_listeners t gateway route ref reason [] = ([], reason)
scan_listeners t gateway route ref reason (l ∷ rest) =
    let v = verdict t gateway route ref l in
    let (listeners, final) = scan_listeners t gateway route ref (reason_after v reason) rest in
    (keep v l listeners, final)

-- `message` of the condition `Accepted` where no listener accepts.
abbrev pub rejection_message : String → String
rejection_message reason =
    if reason == "NotAllowedByListeners"
    then "Route is not allowed by a listener's policy."
    else "The route's hostnames do not match any listener hostnames."

unfoldable pub accepted_condition : HttpRoute → List Listener → String → Condition
accepted_condition route [] reason = record {
  type = "Accepted";
  status = "False";
  reason = reason;
  message = rejection_message reason;
  observed_generation = route.meta.generation;
}
accepted_condition route (l ∷ rest) reason = record {
  type = "Accepted";
  status = "True";
  reason = "Accepted";
  message = "Route is accepted.";
  observed_generation = route.meta.generation;
}

pub record RouteParentStatus : Type 0 where
  pub parent_ref : ParentReference
  pub controller_name : String
  pub conditions : List Condition

abbrev pub controller_name : String
controller_name = "sigs.k8s.io/kube-agentic-networking-controller"

-- The condition `ResolvedRefs` as it is before the route is translated: its status is not set.
abbrev pub unresolved_condition : HttpRoute → Condition
unresolved_condition route = record {
  type = "ResolvedRefs";
  status = "";
  reason = "";
  message = "";
  observed_generation = route.meta.generation;
}

-- acceptedListenerSet[l.Name] = l, for each listener
abbrev pub accept_all : List Listener → List (String × Listener) → List (String × Listener)
accept_all [] accepted = accepted
accept_all (l ∷ rest) accepted = accept_all rest (insert l.name l accepted)

unfoldable pub ref_status : HttpRoute → ParentReference → List Listener × String → RouteParentStatus
unfolding accepted_condition
ref_status route ref (listeners, reason) = record {
  parent_ref = ref;
  controller_name = controller_name;
  conditions = accepted_condition route listeners reason ∷ unresolved_condition route ∷ [];
}

abbrev pub push_if {ℓ} : {A : Type ℓ} → Bool → A → List A → List A
push_if b x xs = if b then x ∷ xs else xs

-- The loop over the parent references, with the map of listeners that accept so far.
unfoldable pub validate_refs :
    Translator
    → Gateway
    → HttpRoute
    → List (String × Listener)
    → List ParentReference
    → List RouteParentStatus × List (String × Listener)
unfolding targets scan_listeners ref_status insert
validate_refs t gateway route accepted [] = ([], accepted)
validate_refs t gateway route accepted (ref ∷ refs) =
    let ours = targets gateway route ref in
    let found = scan_listeners t gateway route ref "NoMatchingParent" gateway.listeners in
    let (statuses, final) =
      validate_refs t gateway route (if ours then accept_all found.0 accepted else accepted) refs in
    (push_if ours (ref_status route ref found) statuses, final)

-- The map's values come in the order of iteration, for which `order` stands.
unfoldable pub validate_http_route :
    Translator
    → (List Listener → List Listener)
    → Gateway
    → HttpRoute
    → List RouteParentStatus × List Listener
unfolding validate_refs
validate_http_route t order gateway route =
    let (statuses, accepted) = validate_refs t gateway route [] route.parent_refs in
    (statuses, order (values accepted))
