-- ===== src/Translator/Snapshot/Fetched.antt =====
-- The backends of a rule and their clusters: fetchBackend of pkg/translator/backend.go and
-- buildHTTPRouteAction of pkg/translator/httproute.go.
use mathlib.Core.Path.{subst}
use kube_agentic_networking.Common.{
  Option-cases, ◌∙◌, concat, ℕ, String, ◌≡◌, refl, sym, ◌⊎◌, inl, inr, Bool, true, false, not,
  Option, none, some, List, [], ◌∷◌, ◌==◌, eqb, if◌then◌else◌, or_default, In, arith,
}
use kube_agentic_networking.Api.{Got, got, error, BackendRef, XBackend}
use kube_agentic_networking.Translator.Env.{Translator}
use kube_agentic_networking.Translator.Envoy.{RouteAction, ClusterWeight, Cluster}
use kube_agentic_networking.Translator.Backends.{
  build_clusters, Result, ok, fails, ◌>>=◌, RouteBackend, ControllerError, cluster_of,
  convert_backend_to_cluster, convert_service_ref_to_cluster, fetch_backend, fetch_service_backend,
  fetch_xbackend, check_service, xbackend_result, is_service_ref, grant_refuses,
}
use kube_agentic_networking.Translator.Routes.{
  add_cluster, cluster_weight, weigh_backends, weighted, build_http_route_action,
}

-- A predicate on the result, where there is one.
abbrev pub OnOk {ℓ} : {A : Type ℓ} → (A → Type 0) → Result A → Type 0
OnOk P (ok a) = P a
OnOk P (fails e) = Unit

OnOk-if {ℓ} :
    {A : Type ℓ} (P : A → Type 0) (b : Bool) (x y : Result A)
    → OnOk P x
    → OnOk P y
    → OnOk P (if b then x else y)
OnOk-if P true x y p q = p
OnOk-if P false x y p q = q

OnOk-got {ℓ κ} :
    {A : Type ℓ} {B : Type κ} (P : A → Type 0) (g : Got B) (e : String → ControllerError)
    (k : B → Result A)
    → ((b : B) → OnOk P (k b))
    → OnOk P (elim g [ error msg ↦ fails (e msg) | got b ↦ k b ])
OnOk-got P (error msg) e k h = tt
OnOk-got P (got b) e k h = h b

OnOk-bind {ℓ κ} :
    {A : Type ℓ} {B : Type κ} (P : A → Type 0) (Q : B → Type 0) (r : Result A) (k : A → Result B)
    → OnOk P r
    → ((a : A) → P a → OnOk Q (k a))
    → OnOk Q (r >>= k)
OnOk-bind P Q (ok a) k p h = h a p
OnOk-bind P Q (fails e) k p h = tt

-- The cluster of a backend has the name that its routes use.
abbrev pub IsNamed : RouteBackend → Type 0
IsNamed rb = (c : Cluster) → cluster_of rb ≡ some c → c.name ≡ rb.cluster_name

xbackend_result-IsNamed : (b : XBackend) → IsNamed (xbackend_result b)
unfolding convert_backend_to_cluster
xbackend_result-IsNamed b c h = ground arith

fetch_service_backend-IsNamed :
    (t : Translator) (namespace : String) (ref : BackendRef)
    → OnOk IsNamed (fetch_service_backend t namespace ref)
unfolding fetch_service_backend convert_service_ref_to_cluster
fetch_service_backend-IsNamed t namespace ref =
    OnOk-if IsNamed (grant_refuses t namespace (or_default namespace ref.namespace)) _ _ tt (
      OnOk-got IsNamed (t.service_get (or_default namespace ref.namespace) ref.name) _ _
        (λ svc c h. ground arith))

check_service-IsNamed :
    (t : Translator) (ns : String) (b : XBackend) (svc : Option String)
    → OnOk IsNamed (check_service t ns b svc)
check_service-IsNamed t ns b none = xbackend_result-IsNamed b
check_service-IsNamed t ns b (some svc_name) =
    OnOk-got IsNamed (t.service_get ns svc_name) _ _ (λ svc. xbackend_result-IsNamed b)

fetch_xbackend-IsNamed :
    (t : Translator) (namespace : String) (ref : BackendRef)
    → OnOk IsNamed (fetch_xbackend t namespace ref)
fetch_xbackend-IsNamed t namespace ref =
    OnOk-got IsNamed (t.backend_get (or_default namespace ref.namespace) ref.name) _ _
      (λ b. check_service-IsNamed t (or_default namespace ref.namespace) b b.mcp.service_name)

-- A backend that is fetched is built into a cluster of the name that the route uses.
fetch_backend-IsNamed :
    (t : Translator) (namespace : String) (ref : BackendRef)
    → OnOk IsNamed (fetch_backend t namespace ref)
unfolding fetch_backend
fetch_backend-IsNamed t namespace ref =
    OnOk-if IsNamed (is_service_ref ref) _ _ (fetch_service_backend-IsNamed t namespace ref)
      (of_kind ref.kind)
  where
    of_kind :
        (o : Option String)
        → OnOk IsNamed (elim o [
          | none ↦ fetch_xbackend t namespace ref
          | some kind ↦
              if not (kind == "XBackend")
              then fails (record {
                reason = "InvalidKind";
                message = concat ("unsupported backend kind: " ∷ kind ∷ []);
              })
              else fetch_xbackend t namespace ref
        ])
    of_kind none = fetch_xbackend-IsNamed t namespace ref
    of_kind (some kind) =
        OnOk-if IsNamed (not (kind == "XBackend")) _ _ tt (fetch_xbackend-IsNamed t namespace ref)

-- A backend of the list has the name, and its cluster too.
abbrev pub Has : List RouteBackend → String → Type 0
Has backends name = (rb : RouteBackend) × In rb backends × (rb.cluster_name ≡ name) × IsNamed rb

abbrev pub Covers : List ClusterWeight × List RouteBackend → Type 0
Covers found = (c : ClusterWeight) → In c found.0 → Has found.1 c.name

cluster_weight-name :
    (t : Translator) (rb : RouteBackend) (weight : ℕ)
    → (cluster_weight t rb weight).name ≡ rb.cluster_name
unfolding cluster_weight
cluster_weight-name t rb weight = refl

In-add_cluster :
    (t : Translator) (rb : RouteBackend) (weight : ℕ) (clusters : List ClusterWeight)
    (c : ClusterWeight)
    → In c (add_cluster t rb weight clusters)
    → (rb.cluster_name ≡ c.name) ⊎ In c clusters
In-add_cluster t rb weight clusters c i = In-if (eqb weight 0) i
  where
    In-if :
        (b : Bool)
        → In c (if b then clusters else cluster_weight t rb weight ∷ clusters)
        → (rb.cluster_name ≡ c.name) ⊎ In c clusters
    In-if true i = inr i
    In-if false (inl e) =
        inl (subst (λ z. rb.cluster_name ≡ z.name) (sym e) (sym (cluster_weight-name t rb weight)))
    In-if false (inr j) = inr j

weigh_backends-Covers :
    (t : Translator) (namespace : String) (refs : List BackendRef)
    → OnOk Covers (weigh_backends t namespace refs)
unfolding weigh_backends
weigh_backends-Covers t namespace [] = λ c i. elim i [ ]
weigh_backends-Covers t namespace (ref ∷ refs) =
    OnOk-bind IsNamed Covers (fetch_backend t namespace ref) _
      (fetch_backend-IsNamed t namespace ref)
      (λ rb named.
        OnOk-bind Covers Covers (weigh_backends t namespace refs) _
          (weigh_backends-Covers t namespace refs)
          (λ later covers c i. elim (In-add_cluster t rb (or_default 1 ref.weight) later.0 c i) [
            | inl e ↦ (rb, inl refl, e, named)
            | inr j ↦ let (b, k, e, n) = covers c j in (b, inr k, e, n)
          ]))

abbrev pub Carries : RouteAction × List RouteBackend → Type 0
Carries found = Covers (found.0.clusters, found.1)

pub build_http_route_action-Carries :
    (t : Translator) (namespace : String) (refs : List BackendRef)
    → OnOk Carries (build_http_route_action t namespace refs)
unfolding build_http_route_action
build_http_route_action-Carries t namespace refs =
    OnOk-bind Covers Carries (weigh_backends t namespace refs) _
      (weigh_backends-Covers t namespace refs)
      (λ found covers. weighted-Carries found.0 found.1 covers)
  where
    weighted-Carries :
        (cs : List ClusterWeight) (backends : List RouteBackend)
        → Covers (cs, backends)
        → OnOk Carries (weighted cs backends)
    weighted-Carries [] backends h = tt
    weighted-Carries (c ∷ cs) backends h = h

-- Every backend of the list has a cluster in the list that is built, of the name that its routes use.
pub build_clusters-named :
    (backends : List RouteBackend) (cs : List Cluster) (name : String)
    → build_clusters backends ≡ some cs
    → Has backends name
    → (c : Cluster) × In c cs × (c.name ≡ name)
unfolding build_clusters
build_clusters-named [] cs name h (rb, i, e, n) = elim i [ ]
build_clusters-named (b ∷ bs) cs name h (rb, i, e, n) = elim (Option-cases (cluster_of b)) [
  | inl missing ↦ absurd (cc (rw (missing, build_clusters) at h))
  | inr (c, p) ↦ elim (Option-cases (build_clusters bs)) [
    | inl stopped ↦ absurd (cc (rw (p, stopped, build_clusters) at h))
    | inr (rest, q) ↦
        let same : c ∷ rest ≡ cs = let f = rw (p, q, build_clusters) at h in cc in
        subst (λ z. (d : Cluster) × In d z × (d.name ≡ name)) same
          (elim i [
            | inl here ↦ (c, inl refl, n c (subst (λ z. cluster_of z ≡ some c) (sym here) p) ∙ e)
            | inr later ↦
                let (d, j, f) = build_clusters-named bs rest name q (rb, later, e, n) in
                (d, inr j, f)
          ])
  ]
]
