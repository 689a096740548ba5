-- ===== src/Translator/Hostnames/Attached.antt =====
-- The test of hostnames against the hostnames that are configured: isAllowedByHostname and
-- getIntersectingHostnames of pkg/translator/routes.go.
use mathlib.Core.Path.{subst}
use kube_agentic_networking.Translator.Hostnames.Covers.{
  Covers, IsWellFormed, most_restrictive-Covers,
}
use kube_agentic_networking.Common.{
  String, ◌≡◌, ◌≢◌, refl, sym, ◌∙◌, ◌↔◌, ◌⊎◌, inl, inr, true, Option, none, some, List, [], ◌∷◌,
  ◌==◌, eq_iff, if◌then◌else◌, Bool-cases, any, any_iff, In, In-append,
}
use kube_agentic_networking.Api.{Listener, HttpRoute, http_route}
use kube_agentic_networking.Translator.Hostnames.{
  is_hostname_subset, is_allowed_by_hostname, set_hostname, insert_set, most_restrictive,
  allowed_by, intersect, intersecting, get_intersecting_hostnames,
}

Nowhere-at-end : {x h : String} → In x (h ∷ []) → x ≡ h
Nowhere-at-end (inl e) = e
Nowhere-at-end (inr i) = elim i [ ]

In-insert_set : (h x : String) (set : List String) → In x (insert_set h set) ↔ (In x set ⊎ (x ≡ h))
In-insert_set h x set = elim (Bool-cases (any (λ y. y == h) set)) [
  | inl there ↦
      let (y, i, e) = (any_iff (λ y. y == h) set).0 there in
      rw there (
        λ j. inl j,
        elim [ inl j ↦ j | inr q ↦ subst (λ z. In z set) ((eq_iff y h).0 e ∙ sym q) i ],
      )
  | inr absent ↦ rw absent (
    λ j. elim ((In-append x set (h ∷ [])).0 j) [ inl k ↦ inl k | inr k ↦ inr (Nowhere-at-end k) ],
    λ j. (In-append x set (h ∷ [])).1 (elim j [ inl k ↦ inl k | inr e ↦ inr (inl e) ]),
  )
]

-- What the loop has collected.
abbrev pub Collected : String → List String → String → Type 0
Collected l hostnames x =
    (h : String) × In h hostnames × (is_hostname_subset h l ≡ true) × (x ≡ most_restrictive h l)

In-intersect-to :
    (l x : String) (set hostnames : List String)
    → In x (intersect l set hostnames)
    → In x set ⊎ Collected l hostnames x
unfolding intersect
In-intersect-to l x set [] i = inl i
In-intersect-to l x set (h ∷ rest) i = elim (Bool-cases (is_hostname_subset h l)) [
  | inl t ↦ elim (In-intersect-to l x (insert_set (most_restrictive h l) set) rest (rw t at i)) [
    | inl j ↦ elim ((In-insert_set (most_restrictive h l) x set).0 j) [
      | inl k ↦ inl k
      | inr e ↦ inr (h, inl refl, t, e)
    ]
    | inr (g, k, s, e) ↦ inr (g, inr k, s, e)
  ]
  | inr f ↦ elim (In-intersect-to l x set rest (rw f at i)) [
    | inl j ↦ inl j
    | inr (g, k, s, e) ↦ inr (g, inr k, s, e)
  ]
]

In-intersect-set :
    (l x : String) (set hostnames : List String) → In x set → In x (intersect l set hostnames)
unfolding intersect
In-intersect-set l x set [] i = i
In-intersect-set l x set (h ∷ rest) i = elim (Bool-cases (is_hostname_subset h l)) [
  | inl t ↦ rw t (
      In-intersect-set l x (insert_set (most_restrictive h l) set) rest
        ((In-insert_set (most_restrictive h l) x set).1 (inl i)))
  | inr f ↦ rw f (In-intersect-set l x set rest i)
]

In-intersect-from :
    (l h : String) (set hostnames : List String)
    → In h hostnames
    → is_hostname_subset h l ≡ true
    → In (most_restrictive h l) (intersect l set hostnames)
unfolding intersect
In-intersect-from l h set [] i t = elim i [ ]
In-intersect-from l h set (g ∷ rest) (inl e) t =
    let s : is_hostname_subset g l ≡ true = subst (λ z. is_hostname_subset z l ≡ true) e t in
    rw (e, s)
      (In-intersect-set l (most_restrictive g l) (insert_set (most_restrictive g l) set) rest
        ((In-insert_set (most_restrictive g l) _ set).1 (inr refl)))
In-intersect-from l h set (g ∷ rest) (inr i) t =
    In-intersect-from l h
      (if is_hostname_subset g l then insert_set (most_restrictive g l) set else set) rest i t

ne-nil_iff : (xs : List String) → (xs ≢ []) ↔ ((x : String) × In x xs)
ne-nil_iff [] = (λ h. absurd (h refl), λ (x, i). elim i [ ])
ne-nil_iff (x ∷ xs) = (λ h. (x, inl refl), λ i. cc)

module _ (order : List String → List String)
    (perm : (x : String) (xs : List String) → In x (order xs) ↔ In x xs) where
  In-intersecting :
      (l h x : String) (rest : List String)
      → In x (intersecting order (some l) (h ∷ rest)) ↔ Collected l (h ∷ rest) x
  In-intersecting l h x rest = (
    λ i. elim (In-intersect-to l x [] (h ∷ rest) ((perm x _).0 i)) [
      | inl j ↦ elim j [ ]
      | inr c ↦ c
    ],
    λ (g, i, t, same). (perm x _).1 (
        subst (λ z. In z (intersect l [] (h ∷ rest))) (sym same)
          (In-intersect-from l g [] (h ∷ rest) i t)),
  )

  allowed_iff_intersecting :
      (o : Option String) (hostnames : List String)
      → (allowed_by o (some hostnames) ≡ true) ↔ (intersecting order o hostnames ≢ [])
  allowed_iff_intersecting none [] = (λ e. cc, λ e. refl)
  allowed_iff_intersecting none (h ∷ rest) = (λ e. cc, λ e. refl)
  allowed_iff_intersecting (some l) [] = (λ e. cc, λ e. refl)
  allowed_iff_intersecting (some l) (h ∷ rest) =
      let test = λ (g : String). is_hostname_subset g l in
      (
        λ e.
            let (g, i, t) = (any_iff test (h ∷ rest)).0 e in
            (ne-nil_iff _).1 (most_restrictive g l, (In-intersecting l h _ rest).1 (g, i, t, refl)),
        λ e.
            let (x, i) = (ne-nil_iff _).0 e in
            let (g, j, t, same) = (In-intersecting l h x rest).0 i in
            (any_iff test (h ∷ rest)).1 (g, j, t),
      )

  -- The hostnames configured for a listener and a route that both have some are those that the
  -- loop collects, whatever the order in which the set returns them.
  pub In-get_intersecting_hostnames :
      (listener : Listener) (l h x : String) (rest : List String)
      → set_hostname listener.hostname ≡ some l
      → In x (get_intersecting_hostnames order listener (h ∷ rest)) ↔ Collected l (h ∷ rest) x
  unfolding get_intersecting_hostnames
  In-get_intersecting_hostnames listener l h x rest e =
      subst (λ o. In x (intersecting order o (h ∷ rest)) ↔ Collected l (h ∷ rest) x) (sym e)
        (In-intersecting l h x rest)

-- A listener allows the hostnames of an HTTPRoute exactly where some hostname is configured for it,
-- whatever the order in which the set of hostnames is returned.
pub allowed_iff_configured :
    (order : List String → List String)
    → ((x : String) (xs : List String) → In x (order xs) ↔ In x xs)
    → (listener : Listener) (route : HttpRoute)
    → (is_allowed_by_hostname listener (http_route route) ≡ true)
      ↔ (get_intersecting_hostnames order listener route.hostnames ≢ [])
unfolding is_allowed_by_hostname get_intersecting_hostnames
allowed_iff_configured order perm listener route =
    allowed_iff_intersecting order perm (set_hostname listener.hostname) route.hostnames

-- Where the listener has a hostname that begins with a star only as "*.", every host that a
-- configured hostname covers is covered by the listener's.
pub configured-Covers :
    (order : List String → List String)
    → ((x : String) (xs : List String) → In x (order xs) ↔ In x xs)
    → (listener : Listener) (l : String) (hostnames : List String)
    → set_hostname listener.hostname ≡ some l
    → IsWellFormed l
    → (x host : String) → In x (get_intersecting_hostnames order listener hostnames)
    → Covers x host
    → Covers l host
unfolding get_intersecting_hostnames
configured-Covers order perm listener l [] e formed x host i c =
    subst (λ z. Covers z host) (Nowhere-at-end (subst (λ o. In x (intersecting order o [])) e i)) c
configured-Covers order perm listener l (h ∷ rest) e formed x host i c =
    let (g, j, t, same) = (In-get_intersecting_hostnames order perm listener l h x rest e).0 i in
    most_restrictive-Covers g l formed t host (subst (λ z. Covers z host) same c)
