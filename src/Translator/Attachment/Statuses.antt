-- ===== src/Translator/Attachment/Statuses.antt =====
-- Which listeners validateHTTPRoute hands a route to.
use mathlib.Core.Path.{subst}
use kube_agentic_networking.Common.{
  lookup-In-values, none, Option-cases, eq_iff, ◌≢◌, some, lookup, lookup-insert, string_eq, String,
  ◌≡◌, refl, ap, ◌↔◌, ◌⊎◌, inl, inr, Bool, true, ◌&&◌, List, [], ◌∷◌, map, arith, if◌then◌else◌,
  Bool-cases, In, select, insert, In-values-insert, values, lookup-insert-ne_none, string_eq,
  In-select,
}
use kube_agentic_networking.Api.{Gateway, Listener, HttpRoute, ParentReference, http_route}
use kube_agentic_networking.Translator.Env.{Translator}
use kube_agentic_networking.Translator.Hostnames.{is_allowed_by_hostname}
use kube_agentic_networking.Translator.Attachment.{
  validate_http_route, targets, ref_selects, is_allowed_by_listener, verdict, keep, reason_after,
  accept_all, scan_listeners, validate_refs,
}

-- What the program's own comments call acceptance: the reference selects the listener, the listener
-- allows the route's namespace and kind, and some hostname of the route fits.
pub attaches : Translator → Gateway → HttpRoute → ParentReference → Listener → Bool
attaches t gateway route ref l =
    ref_selects ref l
    && (is_allowed_by_listener t gateway l (http_route route)
        && is_allowed_by_hostname l (http_route route))

module _ (t : Translator) (gateway : Gateway) (route : HttpRoute) where
  keep-verdict :
      (ref : ParentReference) (l : Listener) (listeners : List Listener)
      → keep (verdict t gateway route ref l) l listeners
        ≡ (if attaches t gateway route ref l then l ∷ listeners else listeners)
  unfolding verdict attaches
  keep-verdict ref l listeners = ground arith

  -- The loop over the listeners keeps those that accept, in order.
  pub scan_listeners-select :
      (ref : ParentReference) (reason : String) (listeners : List Listener)
      → (scan_listeners t gateway route ref reason listeners).0
        ≡ select (attaches t gateway route ref) listeners
  unfolding scan_listeners
  scan_listeners-select ref reason [] = refl
  scan_listeners-select ref reason (l ∷ rest) = rw (
    keep-verdict ref l _,
    scan_listeners-select ref (reason_after (verdict t gateway route ref l) reason) rest,
  )

  abbrev found : ParentReference → List Listener × String
  found ref = scan_listeners t gateway route ref "NoMatchingParent" gateway.listeners

  -- One status for each reference to the Gateway, in order.
  pub validate_refs-parents :
      (accepted : List (String × Listener)) (refs : List ParentReference)
      → map (λ s. s.parent_ref) (validate_refs t gateway route accepted refs).0
        ≡ select (targets gateway route) refs
  unfolding validate_refs
  validate_refs-parents accepted [] = refl
  validate_refs-parents accepted (ref ∷ refs) = elim (Bool-cases (targets gateway route ref)) [
    | inl e ↦
        rw e (ap (λ r. ref ∷ r) (validate_refs-parents (accept_all (found ref).0 accepted) refs))
    | inr e ↦ rw e (validate_refs-parents accepted refs)
  ]

  -- Through some reference to the Gateway, a listener of the Gateway accepts the route.
  abbrev pub AcceptedBy : List ParentReference → Listener → Type 0
  AcceptedBy refs l =
      (ref : ParentReference) × In ref refs
      × In l gateway.listeners
      × (targets gateway route ref ≡ true)
      × (attaches t gateway route ref l ≡ true)

  In-accept_all :
      (ls : List Listener) (accepted : List (String × Listener)) (l : Listener)
      → In l (values (accept_all ls accepted))
      → In l ls ⊎ In l (values accepted)
  In-accept_all [] accepted l i = inr i
  In-accept_all (x ∷ ls) accepted l i = elim (In-accept_all ls (insert x.name x accepted) l i) [
    | inl j ↦ inl (inr j)
    | inr j ↦ elim (In-values-insert x.name x l accepted j) [ inl e ↦ inl (inl e) | inr k ↦ inr k ]
  ]

  In-found :
      (ref : ParentReference) (l : Listener)
      → In l (found ref).0 ↔ (In l gateway.listeners × (attaches t gateway route ref l ≡ true))
  In-found ref l =
      rw (scan_listeners-select ref "NoMatchingParent" gateway.listeners) (In-select _ l _)

  validate_refs_sound :
      (accepted : List (String × Listener)) (refs : List ParentReference) (l : Listener)
      → In l (values (validate_refs t gateway route accepted refs).1)
      → In l (values accepted) ⊎ AcceptedBy refs l
  unfolding validate_refs
  validate_refs_sound accepted [] l i = inl i
  validate_refs_sound accepted (ref ∷ refs) l i = elim (Bool-cases (targets gateway route ref)) [
    | inl e ↦ elim (validate_refs_sound (accept_all (found ref).0 accepted) refs l (rw e at i)) [
      | inl j ↦ elim (In-accept_all (found ref).0 accepted l j) [
        | inl k ↦ let (m, a) = (In-found ref l).0 k in inr (ref, inl refl, m, e, a)
        | inr k ↦ inl k
      ]
      | inr (r, k, m, g, a) ↦ inr (r, inr k, m, g, a)
    ]
    | inr e ↦ elim (validate_refs_sound accepted refs l (rw e at i)) [
      | inl j ↦ inl j
      | inr (r, k, m, g, a) ↦ inr (r, inr k, m, g, a)
    ]
  ]

  -- Every entry of the map stands under its listener's name.
  abbrev Named : List (String × Listener) → Type 0
  Named m = (n : String) (l : Listener) → lookup n m ≡ some l → l.name ≡ n

  Named-insert : (l : Listener) (m : List (String × Listener)) → Named m → Named (insert l.name l m)
  Named-insert l m h n x e = ground (arith, lookup-insert l.name n l m, eq_iff l.name n, h n x)

  bound :
      (x l : Listener) (m : List (String × Listener)) (n : String)
      → l ≡ x
      → l.name ≡ n
      → lookup n (insert x.name x m) ≢ none
  bound x l m n q e = ground (arith, lookup-insert x.name n x m, eq_iff x.name n)

  lookup-accept_all :
      (ls : List Listener) (m : List (String × Listener)) (n : String)
      → (lookup n m ≢ none) ⊎ ((l : Listener) × In l ls × (l.name ≡ n))
      → lookup n (accept_all ls m) ≢ none
  lookup-accept_all [] m n (inl h) = h
  lookup-accept_all [] m n (inr (l, i, e)) = elim i [ ]
  lookup-accept_all (x ∷ ls) m n (inl h) =
      lookup-accept_all ls (insert x.name x m) n (inl (lookup-insert-ne_none x.name n x m h))
  lookup-accept_all (x ∷ ls) m n (inr (l, inl q, e)) =
      lookup-accept_all ls (insert x.name x m) n (inl (bound x l m n q e))
  lookup-accept_all (x ∷ ls) m n (inr (l, inr i, e)) =
      lookup-accept_all ls (insert x.name x m) n (inr (l, i, e))

  Named-accept_all :
      (ls : List Listener) (m : List (String × Listener)) → Named m → Named (accept_all ls m)
  Named-accept_all [] m h = h
  Named-accept_all (x ∷ ls) m h = Named-accept_all ls (insert x.name x m) (Named-insert x m h)

  Named-validate_refs :
      (m : List (String × Listener)) (refs : List ParentReference)
      → Named m
      → Named (validate_refs t gateway route m refs).1
  unfolding validate_refs
  Named-validate_refs m [] h = h
  Named-validate_refs m (ref ∷ refs) h = elim (Bool-cases (targets gateway route ref)) [
    | inl e ↦
        rw e (
          Named-validate_refs (accept_all (found ref).0 m) refs
            (Named-accept_all (found ref).0 m h))
    | inr e ↦ rw e (Named-validate_refs m refs h)
  ]

  validate_refs_complete :
      (m : List (String × Listener)) (refs : List ParentReference) (l : Listener)
      → (lookup l.name m ≢ none) ⊎ AcceptedBy refs l
      → lookup l.name (validate_refs t gateway route m refs).1 ≢ none
  unfolding validate_refs
  validate_refs_complete m [] l (inl h) = h
  validate_refs_complete m [] l (inr (r, i, q, g, a)) = elim i [ ]
  validate_refs_complete m (ref ∷ refs) l h = elim (Bool-cases (targets gateway route ref)) [
    | inl e ↦
        let m' = accept_all (found ref).0 m in
        rw e (
          validate_refs_complete m' refs l (elim h [
            | inl there ↦ inl (lookup-accept_all (found ref).0 m l.name (inl there))
            | inr (r, inl same, k, g, a) ↦
                let a' = subst (λ z. attaches t gateway route z l ≡ true) same a in
                inl (
                  lookup-accept_all (found ref).0 m l.name
                    (inr (l, (In-found ref l).1 (k, a'), refl)))
            | inr (r, inr i, k, g, a) ↦ inr (r, i, k, g, a)
          ]))
    | inr e ↦ rw e (
        validate_refs_complete m refs l (elim h [
          | inl there ↦ inl there
          | inr (r, inl same, k, g, a) ↦
              let e' = subst (λ z. targets gateway route z ≡ true) same g in absurd (cc)
          | inr (r, inr i, k, g, a) ↦ inr (r, i, k, g, a)
        ]))
  ]

-- The listeners that a route is handed to accept it through some of its references to the Gateway,
-- and every listener that accepts it so is handed the route, or another of its name is; the map's
-- values may come in any order.
pub validate_http_route-accepting :
    (t : Translator) (order : List Listener → List Listener)
    → ((x : Listener) (xs : List Listener) → In x (order xs) ↔ In x xs)
    → (gateway : Gateway) (route : HttpRoute) (l : Listener)
    → (In l (validate_http_route t order gateway route).1
        → AcceptedBy t gateway route route.parent_refs l)
      × (AcceptedBy t gateway route route.parent_refs l
          → (k : Listener) × In k (validate_http_route t order gateway route).1 × (k.name ≡ l.name))
unfolding validate_http_route
validate_http_route-accepting t order perm gateway route l = (
  λ i. elim (validate_refs_sound t gateway route [] route.parent_refs l ((perm l _).0 i)) [
    | inl j ↦ elim j [ ]
    | inr a ↦ a
  ],
  λ a.
      let bound = validate_refs_complete t gateway route [] route.parent_refs l (inr a) in
      elim (Option-cases (lookup l.name (validate_refs t gateway route [] route.parent_refs).1)) [
        | inl missing ↦ absurd (bound missing)
        | inr (k, e) ↦ (
          k,
          (perm k _).1 (lookup-In-values l.name _ e),
          Named-validate_refs t gateway route [] route.parent_refs (λ n x q. none-named n x q)
              l.name k e,
        )
      ],
)
  where
    none-named : (n : String) (x : Listener) → lookup {V = Listener} n [] ≡ some x → x.name ≡ n
    none-named n x q = unfold lookup in cc
