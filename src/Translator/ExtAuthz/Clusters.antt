-- ===== src/Translator/ExtAuthz/Clusters.antt =====
-- The clusters of the external authorization: buildExtAuthzFilters of pkg/translator/listener.go and
-- buildExtAuthzBackendClusters of pkg/translator/translator.go.
use mathlib.Core.Path.{subst}
use kube_agentic_networking.Common.{
  String, ◌≡◌, refl, sym, ap, ◌∙◌, inl, inr, Option, none, some, List, [], ◌∷◌, Bool-cases,
  Option-cases, some_inj, In, In-append, lookup, lookup-insert, lookup-insert_self, string_eq, ◌==◌,
  eq_iff,
}
use kube_agentic_networking.Api.{Got, got, error, XAccessPolicy, AccessRule, ExternalAuthFilter}
use kube_agentic_networking.Translator.Env.{Translator}
use kube_agentic_networking.Translator.Envoy.{Cluster}
use kube_agentic_networking.Translator.ExtAuthz.{
  ExtAuthz, ext_authz_filter, external_filter, build_ext_authz_filters, auth_cluster, add_if_absent,
  add_rule_clusters, add_policy_clusters, build_ext_authz_backend_clusters,
}
use kube_agentic_networking.Translator.ExtAuthz.Unique.{
  nothing, added, skipped, Asks, Built, build_ext_authz_filters-Built,
}
use kube_agentic_networking.Translator.ExtAuthz.Services.{GoesTo, ext_authz_filter-GoesTo}

-- The map has a cluster of the name under the name.
abbrev pub Has : List (String × Cluster) → String → Type 0
Has m name = (c : Cluster) × (lookup name m ≡ some c) × (c.name ≡ name)

-- Every cluster stands under its own name.
abbrev Named : List (String × Cluster) → Type 0
Named m = (name : String) (c : Cluster) → lookup name m ≡ some c → c.name ≡ name

module _ (t : Translator) where
  add_if_absent-Named :
      (c : Cluster) (m : List (String × Cluster)) → Named m → Named (add_if_absent t c m)
  add_if_absent-Named c m h = elim (Option-cases (lookup c.name m)) [
    | inr (d, e) ↦ rw (e, add_if_absent) h
    | inl e ↦
        rw (e, add_if_absent)
          (λ name d q. elim (Bool-cases (c.name == name)) [
            | inl b ↦
                let g = rw (lookup-insert, b) at q in
                let same : c ≡ d = some_inj g in
                subst (λ z. z.name ≡ name) same ((eq_iff c.name name).0 b)
            | inr b ↦ h name d (rw (lookup-insert, b) at q)
          ])
  ]

  add_if_absent-Has :
      (c : Cluster) (m : List (String × Cluster)) (name : String)
      → Has m name
      → Has (add_if_absent t c m) name
  add_if_absent-Has c m name (d, e, n) = elim (Option-cases (lookup c.name m)) [
    | inr (x, f) ↦ rw (f, add_if_absent) (d, e, n)
    | inl f ↦
        rw (f, add_if_absent)
          (elim (Bool-cases (c.name == name)) [
            | inl b ↦ (c, rw (lookup-insert, b), (eq_iff c.name name).0 b)
            | inr b ↦ (d, rw (lookup-insert, b, e), n)
          ])
  ]

  add_if_absent-Has_self :
      (c : Cluster) (m : List (String × Cluster)) → Named m → Has (add_if_absent t c m) c.name
  add_if_absent-Has_self c m h = elim (Option-cases (lookup c.name m)) [
    | inr (d, e) ↦ rw (e, add_if_absent) (d, e, h c.name d e)
    | inl e ↦ rw (e, add_if_absent) (c, lookup-insert_self c.name c m, refl)
  ]

  -- What the loops keep, and what they have added after a rule.
  abbrev Kept : List (String × Cluster) → List (String × Cluster) → Type 0
  Kept m after = Named after × ((name : String) → Has m name → Has after name)

  -- The map after one rule.
  after_rule :
      String → Option ExternalAuthFilter → List (String × Cluster) → List (String × Cluster)
  after_rule namespace none m = m
  after_rule namespace (some f) m = add_if_absent t (auth_cluster t namespace f) m

  after_rule-Kept :
      (namespace : String) (o : Option ExternalAuthFilter) (m : List (String × Cluster))
      → Named m
      → Kept m (after_rule namespace o m)
  unfolding after_rule
  after_rule-Kept namespace none m h = (h, λ name k. k)
  after_rule-Kept namespace (some f) m h = (
    add_if_absent-Named (auth_cluster t namespace f) m h,
    add_if_absent-Has (auth_cluster t namespace f) m,
  )

  add_rule_clusters-cons :
      (namespace : String) (m : List (String × Cluster)) (r : AccessRule) (rules : List AccessRule)
      → add_rule_clusters t namespace m (r ∷ rules)
        ≡ add_rule_clusters t namespace (after_rule namespace (external_filter r) m) rules
  unfolding add_rule_clusters after_rule
  add_rule_clusters-cons namespace m r rules = elim (Option-cases (external_filter r)) [
    | inl e ↦ rw e refl
    | inr (f, e) ↦ rw e refl
  ]

  add_rule_clusters-Kept :
      (namespace : String) (rules : List AccessRule) (m : List (String × Cluster))
      → Named m
      → Kept m (add_rule_clusters t namespace m rules)
  unfolding add_rule_clusters
  add_rule_clusters-Kept namespace [] m h = (h, λ name k. k)
  add_rule_clusters-Kept namespace (r ∷ rules) m h =
      let next = after_rule namespace (external_filter r) m in
      let (a, b) = after_rule-Kept namespace (external_filter r) m h in
      let (c, d) = add_rule_clusters-Kept namespace rules next a in
      subst (Kept m) (sym (add_rule_clusters-cons namespace m r rules))
        (c, λ name k. d name (b name k))

  add_rule_clusters-Has :
      (namespace : String) (rules : List AccessRule) (m : List (String × Cluster)) (r : AccessRule)
      (f : ExternalAuthFilter)
      → Named m
      → In r rules
      → external_filter r ≡ some f
      → Has (add_rule_clusters t namespace m rules) (auth_cluster t namespace f).name
  add_rule_clusters-Has namespace [] m r f h i e = elim i [ ]
  add_rule_clusters-Has namespace (x ∷ rules) m r f h i e =
      let next = after_rule namespace (external_filter x) m in
      let (a, b) = after_rule-Kept namespace (external_filter x) m h in
      subst (λ z. Has z (auth_cluster t namespace f).name)
        (sym (add_rule_clusters-cons namespace m x rules))
        (elim i [
          | inl same ↦ (add_rule_clusters-Kept namespace rules next a).1 _ (
              subst (λ z. Has (after_rule namespace z m) (auth_cluster t namespace f).name)
                (sym (ap external_filter (sym same) ∙ e))
                (unfold after_rule in (add_if_absent-Has_self (auth_cluster t namespace f) m h)))
          | inr j ↦ add_rule_clusters-Has namespace rules next r f a j e
        ])

  add_policy_clusters-Kept :
      (policies : List XAccessPolicy) (m : List (String × Cluster))
      → Named m
      → Kept m (add_policy_clusters t m policies)
  unfolding add_policy_clusters
  add_policy_clusters-Kept [] m h = (h, λ name k. k)
  add_policy_clusters-Kept (p ∷ policies) m h =
      let (a, b) = add_rule_clusters-Kept p.meta.namespace p.rules m h in
      let (c, d) =
        add_policy_clusters-Kept policies (add_rule_clusters t p.meta.namespace m p.rules) a in
      (c, λ name k. d name (b name k))

  add_policy_clusters-Has :
      (policies : List XAccessPolicy) (m : List (String × Cluster)) (p : XAccessPolicy)
      (r : AccessRule) (f : ExternalAuthFilter)
      → Named m
      → In p policies
      → In r p.rules
      → external_filter r ≡ some f
      → Has (add_policy_clusters t m policies) (auth_cluster t p.meta.namespace f).name
  unfolding add_policy_clusters
  add_policy_clusters-Has [] m p r f h i j e = elim i [ ]
  add_policy_clusters-Has (q ∷ policies) m p r f h i j e =
      let next = add_rule_clusters t q.meta.namespace m q.rules in
      let (a, b) = add_rule_clusters-Kept q.meta.namespace q.rules m h in
      elim i [
        | inl same ↦ (add_policy_clusters-Kept policies next a).1 _ (
            subst
              (λ z.
                Has (add_rule_clusters t z.meta.namespace m z.rules)
                  (auth_cluster t p.meta.namespace f).name)
              same (add_rule_clusters-Has p.meta.namespace p.rules m r f h j e))
        | inr k ↦ add_policy_clusters-Has policies next p r f a k j e
      ]

  -- Where the filter of a list came from.
  Built-In :
      (policies : List XAccessPolicy) (hs : List String) (fs : List ExtAuthz) (x : ExtAuthz)
      → Built t policies hs fs
      → In x fs
      → (namespace : String) × (f : ExternalAuthFilter) × (hash : String) × Asks t policies
          namespace f hash
        × (ext_authz_filter namespace f hash ≡ some x)
  Built-In policies hs fs x nothing i = elim i [ ]
  Built-In policies hs fs x (skipped namespace f hash hs' fs' fresh asks e b) i =
      Built-In policies hs' fs' x b i
  Built-In policies hs fs x (added namespace f hash y hs' fs' fresh asks e key b) i =
      elim ((In-append x fs' (y ∷ [])).0 i) [
        | inl j ↦ Built-In policies hs' fs' x b j
        | inr j ↦ elim j [
          | inl same ↦ (namespace, f, hash, asks, e ∙ ap some (sym same))
          | inr k ↦ elim k [ ]
        ]
      ]

  backed :
      (policies : List XAccessPolicy) (fs : List ExtAuthz)
      → t.access_policies ≡ got policies
      → build_ext_authz_filters t ≡ got fs
      → (x : ExtAuthz) (name : String) → In x fs
      → GoesTo x.services name
      → Has (build_ext_authz_backend_clusters t) name
  unfolding build_ext_authz_backend_clusters
  backed policies fs listed built x name i goes =
      let (hs, gs, same, from, all) = build_ext_authz_filters-Built t policies listed in
      let q : gs ≡ fs = cc in
      let (namespace, f, hash, asks, e) = Built-In policies hs gs x from (subst (In x) (sym q) i) in
      let found =
        add_policy_clusters-Has policies [] asks.policy asks.rule f (λ n c z. absurd (cc))
          asks.listed asks.ruled asks.asked in
      rw listed (
        subst (Has (add_policy_clusters t [] policies))
          (ap (λ z. (auth_cluster t z f).name) asks.at
            ∙ ext_authz_filter-GoesTo t namespace f hash x name e goes)
          found)

-- Where the filters of the external authorization are built, each cluster through which one of them asks its
-- service is among the clusters that are built for the external authorization, under its name.
pub build_ext_authz_filters-Backed :
    (t : Translator) (fs : List ExtAuthz)
    → build_ext_authz_filters t ≡ got fs
    → (x : ExtAuthz) (name : String) → In x fs
    → GoesTo x.services name
    → Has (build_ext_authz_backend_clusters t) name
unfolding build_ext_authz_filters
build_ext_authz_filters-Backed t fs built = listed t.access_policies refl
  where
    listed :
        (g : Got (List XAccessPolicy))
        → t.access_policies ≡ g
        → (x : ExtAuthz) (name : String) → In x fs
        → GoesTo x.services name
        → Has (build_ext_authz_backend_clusters t) name
    listed (got policies) e = backed t policies fs e built
    listed (error msg) e = let f = rw (e, build_ext_authz_filters) at built in absurd (cc)
