-- ===== src/Translator/Backends.antt =====
-- Backends of a route and their clusters: pkg/translator/backend.go, AllowedByReferenceGrant of
-- pkg/translator/referencegrant.go, and createClusterLoadAssignment of pkg/translator/translator.go.
--
-- Ports are not negative and below 2^32, so that `uint32` keeps them. A nil dereference is `none`.
pub mod Ports
pub mod Grants
mod Examples
use kube_agentic_networking.Common.{
  ℕ, ◌%◌, ◌^◌, String, Bool, true, false, not, ◌&&◌, ◌||◌, Option, none, some, List, [], ◌∷◌, ◌==◌,
  eqb, if◌then◌else◌, or_default, any, concat, ◌≡◌, refl, ◌⊎◌, inl, inr,
}
use kube_agentic_networking.Api.{
  Got, got, error, Service, BackendRef, ReferenceGrant, GrantFrom, GrantTo, XBackend,
}
use kube_agentic_networking.Translator.Env.{Translator}
use kube_agentic_networking.Translator.Attachment.{group_name}
use kube_agentic_networking.Translator.Envoy.{Cluster, strict_dns, logical_dns}

-- ControllerError
pub record ControllerError : Type 0 where
  pub reason : String
  pub message : String

pub data Result {ℓ} (A : Type ℓ) : Type ℓ where
  ok : A → Result A
  fails : ControllerError → Result A

infixl 5 ◌>>=◌
abbrev pub ◌>>=◌ {ℓ κ} : {A : Type ℓ} {B : Type κ} → Result A → (A → Result B) → Result B
ok a >>= k = k a
fails e >>= k = fails e

pub Result-cases {ℓ} :
    {A : Type ℓ} (r : Result A) → ((a : A) × (r ≡ ok a)) ⊎ ((e : ControllerError) × (r ≡ fails e))
Result-cases (ok a) = inl (a, refl)
Result-cases (fails e) = inr (e, refl)

-- routeBackend: `xbackend` is `none` for a direct reference to a Service.
pub record RouteBackend : Type 0 where
  pub cluster_name : String
  pub xbackend : Option XBackend
  pub svc_ns : String
  pub svc_name : String
  pub svc_port : ℕ

-- constants.ClusterNameFormat
unfoldable pub cluster_name_format : String → String → String
cluster_name_format namespace name = concat (namespace ∷ "-" ∷ name ∷ [])

-- routeBackend.Hostname
unfoldable pub backend_hostname : RouteBackend → String
backend_hostname rb = elim rb.xbackend [ none ↦ "" | some b ↦ or_default "" b.mcp.hostname ]

unfoldable pub is_service_ref : BackendRef → Bool
is_service_ref ref =
    let kind = or_default "Service" ref.kind in
    let group = or_default "" ref.group in
    (kind == "Service" || kind == "") && (group == "" || group == "core")

abbrev pub grant_from_matches : String → GrantFrom → Bool
grant_from_matches route_namespace from =
    from.namespace == route_namespace && (from.group == group_name && from.kind == "HTTPRoute")

abbrev pub grant_to_matches : GrantTo → Bool
grant_to_matches to = to.group == "" && to.kind == "Service"

abbrev pub grant_allows : String → ReferenceGrant → Bool
grant_allows route_namespace g =
    any (λ from. grant_from_matches route_namespace from && any grant_to_matches g.to) g.from

unfoldable pub allowed_by_reference_grant :
    String → String → (String → Got (List ReferenceGrant)) → Bool
allowed_by_reference_grant route_namespace backend_namespace grants =
    if route_namespace == backend_namespace then true else elim (grants backend_namespace) [
      | error msg ↦ false
      | got gs ↦ any (grant_allows route_namespace) gs
    ]

abbrev pub find_port : ℕ → List ℕ → Option ℕ
find_port p [] = none
find_port p (q ∷ rest) = if eqb q p then some q else find_port p rest

abbrev pub default_service_port : ℕ
default_service_port = 80

abbrev pub first_port : List ℕ → ℕ
first_port [] = default_service_port
first_port (p ∷ rest) = p

unfoldable pub resolve_service_port : Service → Option ℕ → ℕ
resolve_service_port svc none = first_port svc.ports
resolve_service_port svc (some p) = or_default p (find_port p svc.ports)

-- The test of fetchServiceBackend on references to other namespaces.
abbrev pub grant_refuses : Translator → String → String → Bool
grant_refuses t route_namespace ns = elim t.reference_grants [
  | none ↦ false
  | some grants ↦
      not (ns == route_namespace) && not (allowed_by_reference_grant route_namespace ns grants)
]

unfoldable pub fetch_service_backend : Translator → String → BackendRef → Result RouteBackend
unfolding allowed_by_reference_grant resolve_service_port cluster_name_format
fetch_service_backend t route_namespace ref =
    let ns = or_default route_namespace ref.namespace in
    if grant_refuses t route_namespace ns
    then fails (record {
      reason = "RefNotPermitted";
      message = concat (
          "cross-namespace reference to Service " ∷ ns ∷ "/" ∷ ref.name
          ∷ " not permitted by ReferenceGrant" ∷ []);
    })
    else elim (t.service_get ns ref.name) [
      | error msg ↦ fails (record {
        reason = "BackendNotFound";
        message = concat ("failed to get Service " ∷ ns ∷ "/" ∷ ref.name ∷ ": " ∷ msg ∷ []);
      })
      | got svc ↦ ok (record {
        cluster_name = cluster_name_format ns ref.name;
        xbackend = none;
        svc_ns = ns;
        svc_name = ref.name;
        svc_port = resolve_service_port svc ref.port;
      })
    ]

abbrev pub xbackend_result : XBackend → RouteBackend
xbackend_result b = record {
  cluster_name = cluster_name_format b.meta.namespace b.meta.name;
  xbackend = some b;
  svc_ns = "";
  svc_name = "";
  svc_port = 0;
}

-- The check that the Service of an XBackend exists.
abbrev pub check_service : Translator → String → XBackend → Option String → Result RouteBackend
check_service t ns b none = ok (xbackend_result b)
check_service t ns b (some svc_name) = elim (t.service_get ns svc_name) [
  | error msg ↦ fails (record {
    reason = "BackendNotFound";
    message = concat ("failed to get Backend service " ∷ ns ∷ "/" ∷ svc_name ∷ ": " ∷ msg ∷ []);
  })
  | got svc ↦ ok (xbackend_result b)
]

abbrev pub fetch_xbackend : Translator → String → BackendRef → Result RouteBackend
fetch_xbackend t namespace ref =
    let ns = or_default namespace ref.namespace in
    elim (t.backend_get ns ref.name) [
      | error msg ↦ fails (record {
        reason = "BackendNotFound";
        message = concat ("failed to get Backend " ∷ ns ∷ "/" ∷ ref.name ∷ ": " ∷ msg ∷ []);
      })
      | got b ↦ check_service t ns b b.mcp.service_name
    ]

unfoldable pub fetch_backend : Translator → String → BackendRef → Result RouteBackend
unfolding is_service_ref fetch_service_backend cluster_name_format
fetch_backend t namespace ref =
    if is_service_ref ref then fetch_service_backend t namespace ref else elim ref.kind [
      | none ↦ fetch_xbackend t namespace ref
      | some kind ↦
          if not (kind == "XBackend")
          then fails (record {
            reason = "InvalidKind";
            message = concat ("unsupported backend kind: " ∷ kind ∷ []);
          })
          else fetch_xbackend t namespace ref
    ]

-- uint32(x) of a number that is not negative
abbrev pub uint32 : ℕ → ℕ
uint32 n = n % 2 ^ 32

abbrev pub service_fqdn : String → String → String
service_fqdn name ns = concat (name ∷ "." ∷ ns ∷ ".svc.cluster.local" ∷ [])

-- `none` where the XBackend names neither a service nor a host, which the program dereferences.
unfoldable pub convert_backend_to_cluster : XBackend → Option Cluster
unfolding cluster_name_format
convert_backend_to_cluster b =
    let name = cluster_name_format b.meta.namespace b.meta.name in
    elim b.mcp.service_name [
      | some svc ↦ some (record {
        name = name;
        connect_timeout_seconds = 5;
        discovery_type = strict_dns;
        host = service_fqdn svc b.meta.namespace;
        port = uint32 b.mcp.port;
        tls_sni = none;
        http2 = false;
      })
      | none ↦ elim b.mcp.hostname [
        | none ↦ none
        | some host ↦ some (record {
          name = name;
          connect_timeout_seconds = 5;
          discovery_type = logical_dns;
          host = host;
          port = uint32 b.mcp.port;
          tls_sni = some host;
          http2 = false;
        })
      ]
    ]

unfoldable pub convert_service_ref_to_cluster : String → String → ℕ → Cluster
unfolding cluster_name_format
convert_service_ref_to_cluster ns name port = record {
  name = cluster_name_format ns name;
  connect_timeout_seconds = 5;
  discovery_type = strict_dns;
  host = service_fqdn name ns;
  port = uint32 port;
  tls_sni = none;
  http2 = false;
}

abbrev pub cluster_of : RouteBackend → Option Cluster
cluster_of rb = elim rb.xbackend [
  | some b ↦ convert_backend_to_cluster b
  | none ↦ some (convert_service_ref_to_cluster rb.svc_ns rb.svc_name rb.svc_port)
]

unfoldable pub build_clusters : List RouteBackend → Option (List Cluster)
unfolding convert_backend_to_cluster convert_service_ref_to_cluster
build_clusters [] = some []
build_clusters (rb ∷ rest) = elim (cluster_of rb) [
  | none ↦ none
  | some c ↦ elim (build_clusters rest) [ none ↦ none | some cs ↦ some (c ∷ cs) ]
]
