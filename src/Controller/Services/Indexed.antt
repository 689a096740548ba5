-- ===== src/Controller/Services/Indexed.antt =====
-- The index of references to Services against the list of routes: pkg/controller/service.go.
use Prim.Native.Char.{code}
use Prim.Native.String
use Prim.Native.String.append
use mathlib.Core.Path.{subst, ap₂}
use text.Mathlib.TextEquality.{Char-path}
use kube_agentic_networking.Common.{
  ℕ, drop_one, String, ◌≡◌, ◌↔◌, refl, sym, ap, ◌∙◌, inl, inr, Bool, true, false, not, ◌&&◌, none,
  some, List, [], ◌∷◌, any, any_iff, or_default, In, In-append, Bool-cases, arith, eq_iff, eqb,
}
use kube_agentic_networking.Api.{
  Got, got, Service, BackendRef, HttpRouteRule, HttpRoute, ReferenceGrant,
}
use kube_agentic_networking.Translator.Backends.{allowed_by_reference_grant}
use kube_agentic_networking.Controller.Services.{
  is_xbackend_ref, object_key, ref_keys, rule_keys, http_route_service_ref_index_func, gateways_of,
  gateways_of_all, ref_matches, route_matches, route_allowed, enqueue_direct_refs,
  enqueue_direct_refs_list,
}

-- The text has no "/", as the names of namespaces.
unfoldable pub no_slash : String → Bool
no_slash String.[] = true
no_slash (String.◌∷◌ c s) = not (eqb (code c) 47) && no_slash s

first_code : String → ℕ
first_code String.[] = 0
first_code (String.◌∷◌ c s) = code c

-- The key, letter by letter.
key_of : String → String → String
key_of String.[] x = String.◌∷◌ "/" x
key_of (String.◌∷◌ c a) x = String.◌∷◌ c (key_of a x)

object_key-key_of : (a x : String) → object_key a x ≡ key_of a x
unfolding key_of
object_key-key_of String.[] x =
    append.nil (String.◌++◌ "/" x) ∙ append.cons "/" "" x ∙ ap (String.◌∷◌ "/") (append.nil x)
object_key-key_of (String.◌∷◌ c a) x =
    append.cons c a (String.◌++◌ "/" x) ∙ ap (String.◌∷◌ c) (object_key-key_of a x)

key_of-injective :
    (a b x y : String)
    → no_slash a ≡ true
    → no_slash b ≡ true
    → key_of a x ≡ key_of b y
    → (a ≡ b) × (x ≡ y)
unfolding no_slash first_code key_of
key_of-injective String.[] String.[] x y h k e = (refl, ap drop_one e)
key_of-injective String.[] (String.◌∷◌ d b) x y h k e =
    let f : 47 ≡ code d = ap first_code e in absurd (ground (arith, f, k))
key_of-injective (String.◌∷◌ c a) String.[] x y h k e =
    let f : code c ≡ 47 = ap first_code e in absurd (ground (arith, f, h))
key_of-injective (String.◌∷◌ c a) (String.◌∷◌ d b) x y h k e =
    let f : code c ≡ code d = ap first_code e in
    let (p, q) = key_of-injective a b x y (ground arith) (ground arith) (ap drop_one e) in
    (ap₂ String.◌∷◌ (Char-path c d f) p, q)

object_key-injective :
    (a b x y : String)
    → no_slash a ≡ true
    → no_slash b ≡ true
    → object_key a x ≡ object_key b y
    → (a ≡ b) × (x ≡ y)
object_key-injective a b x y h k e =
    key_of-injective a b x y h k (sym (object_key-key_of a x) ∙ e ∙ object_key-key_of b y)

-- The namespaces that a route's references name have no "/".
abbrev pub PlainRefs : HttpRoute → Type 0
PlainRefs route =
    (rule : HttpRouteRule) (ref : BackendRef)
    → In rule route.rules
    → In ref rule.backend_refs
    → no_slash (or_default route.meta.namespace ref.namespace) ≡ true

-- A reference of the route to the Service, which is not to an XBackend.
abbrev Refers : Service → String → BackendRef → Type 0
Refers svc namespace ref =
    (is_xbackend_ref ref ≡ false)
    × (or_default namespace ref.namespace ≡ svc.meta.namespace)
    × (ref.name ≡ svc.meta.name)

In-ref_keys :
    (key namespace : String) (refs : List BackendRef)
    → In key (ref_keys namespace refs) ↔ (
        (ref : BackendRef) × In ref refs
        × (is_xbackend_ref ref ≡ false)
        × (key ≡ object_key (or_default namespace ref.namespace) ref.name))
unfolding ref_keys
In-ref_keys key namespace [] = (λ i. elim i [ ], λ a. elim a.1 [ ])
In-ref_keys key namespace (ref ∷ refs) =
    let (a, b) = In-ref_keys key namespace refs in
    elim (Bool-cases (is_xbackend_ref ref)) [
      | inl e ↦ rw e (
        λ i. let (r, j, n, q) = a i in (r, inr j, n, q),
        λ (r, j, n, q). elim j [
          | inl same ↦ absurd (let f = subst (λ z. is_xbackend_ref z ≡ false) same n in cc)
          | inr k ↦ b (r, k, n, q)
        ],
      )
      | inr e ↦ rw e (
        λ i. elim i [
          | inl q ↦ (ref, inl refl, e, q)
          | inr k ↦ let (r, j, n, q) = a k in (r, inr j, n, q)
        ],
        λ (r, j, n, q). elim j [
          | inl same ↦ inl (q ∙ ap (λ z. object_key (or_default namespace z.namespace) z.name) same)
          | inr k ↦ inr (b (r, k, n, q))
        ],
      )
    ]

In-rule_keys :
    (key namespace : String) (rules : List HttpRouteRule)
    → In key (rule_keys namespace rules)
      ↔ ((rule : HttpRouteRule) × In rule rules × In key (ref_keys namespace rule.backend_refs))
unfolding rule_keys
In-rule_keys key namespace [] = (λ i. elim i [ ], λ a. elim a.1 [ ])
In-rule_keys key namespace (rule ∷ rules) =
    let (a, b) = In-rule_keys key namespace rules in
    let (c, d) = In-append key (ref_keys namespace rule.backend_refs) (rule_keys namespace rules) in
    (
      λ i. elim (c i) [
        | inl j ↦ (rule, inl refl, j)
        | inr j ↦ let (r, k, l) = a j in (r, inr k, l)
      ],
      λ (r, k, l). d (elim k [
        | inl same ↦ inl (subst (λ z. In key (ref_keys namespace z.backend_refs)) same l)
        | inr m ↦ inr (b (r, m, l))
      ]),
    )

In-gateways_of_all :
    (key : String) (test : HttpRoute → Bool) (routes : List HttpRoute)
    → In key (gateways_of_all test routes)
      ↔ ((route : HttpRoute) × In route routes × (test route ≡ true) × In key (gateways_of route))
In-gateways_of_all key test [] = (λ i. elim i [ ], λ a. elim a.1 [ ])
In-gateways_of_all key test (route ∷ routes) =
    let (a, b) = In-gateways_of_all key test routes in
    let (c, d) = In-append key (gateways_of route) (gateways_of_all test routes) in
    elim (Bool-cases (test route)) [
      | inl e ↦ rw e (
        λ i. elim (c i) [
          | inl j ↦ (route, inl refl, e, j)
          | inr j ↦ let (r, k, l, m) = a j in (r, inr k, l, m)
        ],
        λ (r, k, l, m). d (elim k [
          | inl same ↦ inl (subst (λ z. In key (gateways_of z)) same m)
          | inr n ↦ inr (b (r, n, l, m))
        ]),
      )
      | inr e ↦ rw e (
        λ i. let (r, k, l, m) = a i in (r, inr k, l, m),
        λ (r, k, l, m). elim k [
          | inl same ↦ absurd (let f = subst (λ z. test z ≡ true) same l in cc)
          | inr n ↦ b (r, n, l, m)
        ],
      )
    ]

module _ (grants : String → Got (List ReferenceGrant)) (svc : Service) where
  ref_matches-Refers :
      (namespace : String) (ref : BackendRef)
      → (ref_matches grants svc namespace ref ≡ true) ↔ (
          Refers svc namespace ref
          × (allowed_by_reference_grant namespace svc.meta.namespace grants ≡ true))
  unfolding ref_matches
  ref_matches-Refers namespace ref = (
    λ h. (
      (
        ground arith,
        (eq_iff (or_default namespace ref.namespace) svc.meta.namespace).0 (ground arith),
        (eq_iff ref.name svc.meta.name).0 (ground arith),
      ),
      subst (λ z. allowed_by_reference_grant namespace z grants ≡ true)
          ((eq_iff (or_default namespace ref.namespace) svc.meta.namespace).0 (ground arith))
          (ground arith),
    ),
    λ ((n, p, q), allowed).
        rw (n, (eq_iff _ svc.meta.namespace).1 p, (eq_iff _ svc.meta.name).1 q)
          (subst (λ z. allowed_by_reference_grant namespace z grants ≡ true) (sym p) allowed),
  )

  route_matches-indexed :
      (route : HttpRoute)
      → PlainRefs route
      → no_slash svc.meta.namespace ≡ true
      → (route_matches grants svc route ≡ true) ↔ (
          In (object_key svc.meta.namespace svc.meta.name) (http_route_service_ref_index_func route)
          × (route_allowed grants svc route ≡ true))
  unfolding route_matches http_route_service_ref_index_func
  route_matches-indexed route plain svc_plain = (to, from)
    where
      to :
          any
              (λ rule. any (ref_matches grants svc route.meta.namespace) rule.backend_refs)
              route.rules
            ≡ true
          → In
              (object_key svc.meta.namespace svc.meta.name)
              (rule_keys route.meta.namespace route.rules)
            × (route_allowed grants svc route ≡ true)
      to h =
          let (rule, i, t) = (any_iff _ route.rules).0 h in
          let (ref, j, u) =
            (any_iff (ref_matches grants svc route.meta.namespace) rule.backend_refs).0 t in
          let ((n, p, q), allowed) = (ref_matches-Refers route.meta.namespace ref).0 u in
          (
            (In-rule_keys _ route.meta.namespace route.rules).1 (
              rule,
              i,
              (In-ref_keys _ route.meta.namespace rule.backend_refs).1
                  (ref, j, n, ap₂ object_key (sym p) (sym q)),
            ),
            allowed,
          )

      from :
          In
              (object_key svc.meta.namespace svc.meta.name)
              (rule_keys route.meta.namespace route.rules)
            × (route_allowed grants svc route ≡ true)
          → any
              (λ rule. any (ref_matches grants svc route.meta.namespace) rule.backend_refs)
              route.rules
            ≡ true
      from (k, allowed) =
          let (rule, i, l) = (In-rule_keys _ route.meta.namespace route.rules).0 k in
          let (ref, j, n, e) = (In-ref_keys _ route.meta.namespace rule.backend_refs).0 l in
          let (p, q) = object_key-injective _ _ _ _ svc_plain (plain rule ref i j) e in
          (any_iff _ route.rules).1 (
            rule,
            i,
            (any_iff (ref_matches grants svc route.meta.namespace) rule.backend_refs).1 (
              ref,
              j,
              (ref_matches-Refers route.meta.namespace ref).1 ((n, sym p, sym q), allowed),
            ),
          )

  -- With an indexer that returns for a key the listed routes whose index has the key, the Gateways that are
  -- queued for a Service are those that are queued without an indexer, where the namespaces of the
  -- Service and of the routes' references have no "/".
  pub enqueue_direct_refs-indexed :
      (by_index : String → Got (List HttpRoute)) (routes found : List HttpRoute)
      → by_index (object_key svc.meta.namespace svc.meta.name) ≡ got found
      → ((route : HttpRoute)
          → In route found ↔ (
              In route routes
              × In
                  (object_key svc.meta.namespace svc.meta.name)
                  (http_route_service_ref_index_func route)))
      → no_slash svc.meta.namespace ≡ true
      → ((route : HttpRoute) → In route routes → PlainRefs route)
      → (key : String)
      → In key (enqueue_direct_refs grants svc (some by_index) (got routes))
        ↔ In key (enqueue_direct_refs grants svc none (got routes))
  unfolding enqueue_direct_refs enqueue_direct_refs_list
  enqueue_direct_refs-indexed by_index routes found e index svc_plain plain key =
      let (a, b) = In-gateways_of_all key (route_allowed grants svc) found in
      let (c, d) = In-gateways_of_all key (route_matches grants svc) routes in
      rw e (
        λ i.
            let (r, j, t, k) = a i in
            let (l, m) = (index r).0 j in
            d (r, l, (route_matches-indexed r (plain r l) svc_plain).1 (m, t), k),
        λ i.
            let (r, l, t, k) = c i in
            let (m, u) = (route_matches-indexed r (plain r l) svc_plain).0 t in
            b (r, (index r).1 (l, m), u, k),
      )
