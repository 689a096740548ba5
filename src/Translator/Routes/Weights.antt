-- ===== src/Translator/Routes/Weights.antt =====
-- The weighted clusters of a route: buildHTTPRouteAction of pkg/translator/httproute.go.
use mathlib.Core.Path.{subst}
use kube_agentic_networking.Common.{
  ◌==◌, if◌then◌else◌, none, some, Option, some, Option-cases, ◌^◌, ◌%◌, Option, ℕ, String, ◌≡◌,
  ◌≢◌, ◌↔◌, ◌⊎◌, inl, inr, refl, sym, List, [], ◌∷◌, eqb, eqb_iff, Bool-cases, or_default, ◌∙◌, ap,
  In, All,
}
use mathlib.Core.Path.{ap₂, subst}
use kube_agentic_networking.Api.{XBackend, BackendRef}
use kube_agentic_networking.Translator.Env.{Translator}
use kube_agentic_networking.Translator.Envoy.{ClusterWeight, RouteAction}
use kube_agentic_networking.Translator.Backends.{
  backend_hostname, ControllerError, Result, ok, fails, Result-cases, RouteBackend, fetch_backend,
}
use kube_agentic_networking.Translator.Routes.{
  build_per_cluster_rbac_filter_config, cluster_weight, add_cluster, weigh_backends, weighted,
  build_http_route_action,
}

-- The weight of a reference, which is 1 where it names none.
abbrev pub weight_of : BackendRef → ℕ
weight_of ref = or_default 1 ref.weight

-- The host that an XBackend names, unless it is empty.
pub named_host : Option XBackend → Option String
named_host none = none
named_host (some b) = elim b.mcp.hostname [
  | none ↦ none
  | some host ↦ if host == "" then none else some host
]

module _ (t : Translator) (namespace : String) where
  -- The references and their backends, in order, where all references resolve.
  pub Resolves : List BackendRef → List RouteBackend → Type 0
  Resolves [] [] = Unit
  Resolves [] (rb ∷ rbs) = ⊥
  Resolves (ref ∷ refs) [] = ⊥
  Resolves (ref ∷ refs) (rb ∷ rbs) = (fetch_backend t namespace ref ≡ ok rb) × Resolves refs rbs

  -- The cluster that the backend has, with the weight of the reference in 32 bits.
  abbrev pub forwarded_cluster : RouteBackend → BackendRef → ClusterWeight
  forwarded_cluster rb ref = record {
    name = rb.cluster_name;
    weight = weight_of ref % 2 ^ 32;
    host_rewrite_literal = named_host rb.xbackend;
    typed_per_filter_config = build_per_cluster_rbac_filter_config t rb.xbackend;
  }

  cluster_weight-forwarded :
      (rb : RouteBackend) (ref : BackendRef)
      → cluster_weight t rb (weight_of ref) ≡ forwarded_cluster rb ref
  unfolding cluster_weight backend_hostname named_host
  cluster_weight-forwarded rb ref = elim (Option-cases rb.xbackend) [
    | inl e ↦ rw e refl
    | inr (b, e) ↦ elim (Option-cases b.mcp.hostname) [
      | inl n ↦ rw (e, n) refl
      | inr (host, n) ↦ rw (e, n) refl
    ]
  ]

  -- The cluster of a reference that has a weight.
  abbrev pub Forwarded : List BackendRef → ClusterWeight → Type 0
  Forwarded refs c =
      (ref : BackendRef) × (rb : RouteBackend) × In ref refs
      × (fetch_backend t namespace ref ≡ ok rb)
      × (weight_of ref ≢ 0)
      × (c ≡ forwarded_cluster rb ref)

  add_cluster-Forwarded :
      (ref : BackendRef) (rb : RouteBackend) (refs : List BackendRef) (cs : List ClusterWeight)
      → fetch_backend t namespace ref ≡ ok rb
      → ((c : ClusterWeight) → In c cs ↔ Forwarded refs c)
      → (c : ClusterWeight) → In c (add_cluster t rb (weight_of ref) cs) ↔ Forwarded (ref ∷ refs) c
  add_cluster-Forwarded ref rb refs cs e h c = elim (Bool-cases (eqb (weight_of ref) 0)) [
    | inl z ↦ rw z (
      λ i. let (r, b, j, f, w, q) = (h c).0 i in (r, b, inr j, f, w, q),
      λ (r, b, j, f, w, q). elim j [
        | inl same ↦
            absurd (w (subst (λ x. weight_of x ≡ 0) (sym same) ((eqb_iff (weight_of ref) 0).0 z)))
        | inr k ↦ (h c).1 (r, b, k, f, w, q)
      ],
    )
    | inr z ↦ rw z (
      λ i. elim i [
        | inl q ↦ (
          ref,
          rb,
          inl refl,
          e,
          λ w. let g = (eqb_iff (weight_of ref) 0).1 w in cc,
          q ∙ cluster_weight-forwarded rb ref,
        )
        | inr k ↦ let (r, b, j, f, w, q) = (h c).0 k in (r, b, inr j, f, w, q)
      ],
      λ (r, b, j, f, w, q). elim j [
        | inl same ↦ inl (
            q
            ∙ (let g : ok b ≡ ok rb = sym f ∙ ap (fetch_backend t namespace) same ∙ e in
                let k : b ≡ rb = cc in ap₂ forwarded_cluster k same)
            ∙ sym (cluster_weight-forwarded rb ref))
        | inr k ↦ inr ((h c).1 (r, b, k, f, w, q))
      ],
    )
  ]

  -- What is collected for references that all resolve.
  abbrev Collected : List BackendRef → List ClusterWeight × List RouteBackend → Type 0
  Collected refs found =
      Resolves refs found.1 × ((c : ClusterWeight) → In c found.0 ↔ Forwarded refs c)

  weigh_backends-ok :
      (refs : List BackendRef) (found : List ClusterWeight × List RouteBackend)
      → weigh_backends t namespace refs ≡ ok found
      → Collected refs found
  unfolding weigh_backends Resolves
  weigh_backends-ok [] found h =
      let k : ([], []) ≡ found = cc in
      subst (Collected []) k (tt, λ c. (λ i. elim i [ ], λ f. elim f.2 [ ]))
  weigh_backends-ok (ref ∷ refs) found h = elim (Result-cases (fetch_backend t namespace ref)) [
    | inr (e, p) ↦ let g = rw (p, weigh_backends) at h in absurd (cc)
    | inl (rb, p) ↦ elim (Result-cases (weigh_backends t namespace refs)) [
      | inr (e, q) ↦ let g = rw (p, q, weigh_backends) at h in absurd (cc)
      | inl ((ds, later), q) ↦
          let g = rw (p, q, weigh_backends) at h in
          let k : (add_cluster t rb (weight_of ref) ds, rb ∷ later) ≡ found = cc in
          let (r, w) = weigh_backends-ok refs (ds, later) q in
          subst (Collected (ref ∷ refs)) k ((p, r), add_cluster-Forwarded ref rb refs ds p w)
    ]
  ]

  weigh_backends-fails :
      (refs : List BackendRef) (e : ControllerError)
      → weigh_backends t namespace refs ≡ fails e
      → (ref : BackendRef) × In ref refs × (fetch_backend t namespace ref ≡ fails e)
  unfolding weigh_backends
  weigh_backends-fails [] e h = absurd (cc)
  weigh_backends-fails (ref ∷ refs) e h = elim (Result-cases (fetch_backend t namespace ref)) [
    | inr (d, p) ↦
        let g = rw (p, weigh_backends) at h in
        let same : d ≡ e = cc in (ref, inl refl, p ∙ ap fails same)
    | inl (rb, p) ↦ elim (Result-cases (weigh_backends t namespace refs)) [
      | inr (d, q) ↦
          let g = rw (p, q, weigh_backends) at h in
          let same : d ≡ e = cc in
          let (r, i, f) = weigh_backends-fails refs e (q ∙ ap fails same) in (r, inr i, f)
      | inl (found, q) ↦ let g = rw (p, q, weigh_backends) at h in absurd (cc)
    ]
  ]

  weighted-ok :
      (cs : List ClusterWeight) (rbs : List RouteBackend) (action : RouteAction)
      (backends : List RouteBackend)
      → weighted cs rbs ≡ ok (action, backends)
      → (action.clusters ≡ cs) × (backends ≡ rbs) × (cs ≢ [])
  weighted-ok [] rbs action backends h = absurd (cc)
  weighted-ok (c ∷ cs) rbs action backends h =
      (sym (ap clusters_of h), sym (ap backends_of h), λ z. cc)
    where
      clusters_of : Result (RouteAction × List RouteBackend) → List ClusterWeight
      clusters_of (fails e) = []
      clusters_of (ok (a, b)) = a.clusters

      backends_of : Result (RouteAction × List RouteBackend) → List RouteBackend
      backends_of (fails e) = []
      backends_of (ok (a, b)) = b

  -- Where a route can be forwarded, every reference of the rule resolves and the backends are those of
  -- all references, in order; there is at least one cluster, and the clusters are exactly those of the
  -- references with a weight above 0: each has the name of the backend's cluster, the reference's weight
  -- (1 where none is given) in 32 bits, the host that the XBackend names, if any and not empty, and the
  -- RBAC configuration that `build_per_cluster_rbac_filter_config` gives for the backend.
  pub build_http_route_action-ok :
      (refs : List BackendRef) (action : RouteAction) (backends : List RouteBackend)
      → build_http_route_action t namespace refs ≡ ok (action, backends)
      → Resolves refs backends
        × ((c : ClusterWeight) → In c action.clusters ↔ Forwarded refs c)
        × (action.clusters ≢ [])
  unfolding build_http_route_action
  build_http_route_action-ok refs action backends h =
      elim (Result-cases (weigh_backends t namespace refs)) [
        | inr (e, p) ↦ let g = rw p at h in absurd (cc)
        | inl ((cs, rbs), p) ↦
            let (a, b, some_left) = weighted-ok cs rbs action backends (rw p at h) in
            let (r, w) = weigh_backends-ok refs (cs, rbs) p in
            (
              subst (Resolves refs) (sym b) r,
              subst (λ z. (c : ClusterWeight) → In c z ↔ Forwarded refs c) (sym a) w,
              λ z. some_left (sym a ∙ z),
            )
      ]

  Nothing-Forwarded :
      (refs : List BackendRef) (rbs : List RouteBackend)
      → Resolves refs rbs
      → ((c : ClusterWeight) → Forwarded refs c → ⊥)
      → All (λ ref. weight_of ref ≡ 0) refs
  unfolding Resolves
  Nothing-Forwarded [] rbs r none_left = tt
  Nothing-Forwarded (ref ∷ refs) [] r none_left = elim r [ ]
  Nothing-Forwarded (ref ∷ refs) (rb ∷ rbs) r none_left = (
    elim (Bool-cases (eqb (weight_of ref) 0)) [
      | inl z ↦ (eqb_iff (weight_of ref) 0).0 z
      | inr z ↦ absurd (
          none_left _
            (ref, rb, inl refl, r.0, (λ w. let g = (eqb_iff (weight_of ref) 0).1 w in cc), refl))
    ],
    Nothing-Forwarded refs rbs r.1 (λ c (x, b, i, f, w, q). none_left c (x, b, inr i, f, w, q)),
  )

  -- Where a route cannot be forwarded, the error is that of a reference that does not resolve, or
  -- all references have weight 0 and the reason of the error is "UnsupportedValue".
  pub build_http_route_action-fails :
      (refs : List BackendRef) (e : ControllerError)
      → build_http_route_action t namespace refs ≡ fails e
      → ((ref : BackendRef) × In ref refs × (fetch_backend t namespace ref ≡ fails e))
        ⊎ (All (λ ref. weight_of ref ≡ 0) refs × (e.reason ≡ "UnsupportedValue"))
  unfolding build_http_route_action
  build_http_route_action-fails refs e h = elim (Result-cases (weigh_backends t namespace refs)) [
    | inr (d, p) ↦
        let g = rw p at h in
        let same : d ≡ e = cc in inl (weigh_backends-fails refs e (p ∙ ap fails same))
    | inl ((cs, rbs), p) ↦ inr (empty cs rbs p (rw p at h))
  ]
    where
      reason_of : Result (RouteAction × List RouteBackend) → String
      reason_of (ok a) = ""
      reason_of (fails d) = d.reason

      empty :
          (cs : List ClusterWeight) (rbs : List RouteBackend)
          → weigh_backends t namespace refs ≡ ok (cs, rbs)
          → weighted cs rbs ≡ fails e
          → All (λ ref. weight_of ref ≡ 0) refs × (e.reason ≡ "UnsupportedValue")
      empty (c ∷ cs) rbs p h = absurd (cc)
      empty [] rbs p h =
          let (r, w) = weigh_backends-ok refs ([], rbs) p in
          (
            Nothing-Forwarded refs rbs r (λ c f. let i : In c [] = (w c).1 f in elim i [ ]),
            sym (ap reason_of h),
          )
