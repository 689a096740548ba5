-- ===== src/Translator/Backends/Ports.antt =====
-- Ports and clusters of the backends of pkg/translator/backend.go.
use mathlib.Core.Path.{subst}
use kube_agentic_networking.Common.{
  ℕ, ◌≡◌, ◌↔◌, inl, inr, refl, Option, none, some, List, [], ◌∷◌, eqb, eqb_iff, Bool-cases,
  Option-cases, or_default, In,
}
use kube_agentic_networking.Api.{Service, XBackend}
use kube_agentic_networking.Translator.Backends.{
  find_port, first_port, resolve_service_port, RouteBackend, cluster_of, build_clusters,
  convert_backend_to_cluster,
}

find_port-same : (p : ℕ) (ports : List ℕ) → or_default p (find_port p ports) ≡ p
find_port-same p [] = refl
find_port-same p (q ∷ ports) = elim (Bool-cases (eqb q p)) [
  | inl e ↦ rw e ((eqb_iff q p).0 e)
  | inr f ↦ rw f (find_port-same p ports)
]

-- The port that a Service lists first.
pub head_of : List ℕ → Option ℕ
head_of [] = none
head_of (p ∷ ports) = some p

-- The port of a Service backend is the reference's where it names one, whether or not the Service
-- has it; otherwise it is the first port of the Service, and 80 where the Service has none.
pub resolve_service_port-default :
    (svc : Service) (port : Option ℕ)
    → resolve_service_port svc port ≡ or_default (or_default 80 (head_of svc.ports)) port
unfolding resolve_service_port head_of
resolve_service_port-default svc (some p) = find_port-same p svc.ports
resolve_service_port-default svc none = first svc.ports
  where
    first : (ports : List ℕ) → first_port ports ≡ or_default 80 (head_of ports)
    first [] = refl
    first (p ∷ ports) = refl

-- An XBackend that names neither a Service nor a host.
abbrev pub Dangling : RouteBackend → Type 0
Dangling rb =
    (b : XBackend) × (rb.xbackend ≡ some b) × (b.mcp.service_name ≡ none) × (b.mcp.hostname ≡ none)

cluster_of-none : (rb : RouteBackend) → cluster_of rb ≡ none → Dangling rb
unfolding convert_backend_to_cluster
cluster_of-none rb h = elim (Option-cases rb.xbackend) [
  | inl e ↦ let f = rw e at h in absurd (cc)
  | inr (b, e) ↦
      let f = rw e at h in
      elim (Option-cases b.mcp.service_name) [
        | inl s ↦ elim (Option-cases b.mcp.hostname) [
          | inl n ↦ (b, e, s, n)
          | inr (host, n) ↦ let g = rw (s, n) at f in absurd (cc)
        ]
        | inr (svc, s) ↦ let g = rw s at f in absurd (cc)
      ]
]

Dangling-cluster_of : (rb : RouteBackend) → Dangling rb → cluster_of rb ≡ none
unfolding convert_backend_to_cluster
Dangling-cluster_of rb (b, e, s, n) = rw (e, s, n)

build_clusters-none :
    (bs : List RouteBackend)
    → build_clusters bs ≡ none
    → (rb : RouteBackend) × In rb bs × Dangling rb
unfolding build_clusters
build_clusters-none [] h = absurd (cc)
build_clusters-none (rb ∷ bs) h = elim (Option-cases (cluster_of rb)) [
  | inl e ↦ (rb, inl refl, cluster_of-none rb e)
  | inr (c, e) ↦
      let f = rw (e, build_clusters) at h in
      elim (Option-cases (build_clusters bs)) [
        | inl n ↦ let (later, i, d) = build_clusters-none bs n in (later, inr i, d)
        | inr (cs, n) ↦ let g = rw n at f in absurd (cc)
      ]
]

Dangling-build_clusters :
    (bs : List RouteBackend) (rb : RouteBackend) → In rb bs → Dangling rb → build_clusters bs ≡ none
unfolding build_clusters
Dangling-build_clusters [] rb i d = elim i [ ]
Dangling-build_clusters (x ∷ bs) rb (inl same) d =
    rw (subst (λ z. cluster_of z ≡ none) same (Dangling-cluster_of rb d), build_clusters)
Dangling-build_clusters (x ∷ bs) rb (inr i) d =
    let later = Dangling-build_clusters bs rb i d in
    elim (Option-cases (cluster_of x)) [
      | inl e ↦ rw (e, build_clusters)
      | inr (c, e) ↦ rw (e, later, build_clusters)
    ]

-- The conversion of backends to clusters dereferences a nil pointer exactly where some backend is
-- an XBackend that names neither a Service nor a host.
pub build_clusters-none_iff :
    (bs : List RouteBackend)
    → (build_clusters bs ≡ none) ↔ ((rb : RouteBackend) × In rb bs × Dangling rb)
build_clusters-none_iff bs =
    (build_clusters-none bs, λ (rb, i, d). Dangling-build_clusters bs rb i d)
