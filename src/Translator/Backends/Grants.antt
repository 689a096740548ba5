-- ===== src/Translator/Backends/Grants.antt =====
-- References to backends and the grants that permit them: AllowedByReferenceGrant of
-- pkg/translator/referencegrant.go and its use in pkg/translator/backend.go.
use mathlib.Core.Path.{subst}
use kube_agentic_networking.Common.{
  String, true, false, ◌≡◌, ◌↔◌, ◌⊎◌, inl, inr, refl, sym, List, arith, Bool-cases, In, any,
  any_iff, ◌==◌, eq_iff,
}
use kube_agentic_networking.Api.{Got, got, error, ReferenceGrant, GrantFrom, GrantTo}
use kube_agentic_networking.Translator.Attachment.{group_name}
use kube_agentic_networking.Translator.Backends.{
  allowed_by_reference_grant, grant_allows, grant_to_matches,
}

-- A grant of the backend's namespace that names HTTPRoutes of the route's namespace and Services.
abbrev pub Granted : String → List ReferenceGrant → Type 0
Granted route_namespace gs =
    (g : ReferenceGrant) × (from : GrantFrom) × (to : GrantTo) × In g gs
    × In from g.from
    × In to g.to
    × (from.namespace ≡ route_namespace)
    × (from.group ≡ group_name)
    × (from.kind ≡ "HTTPRoute")
    × (to.group ≡ "")
    × (to.kind ≡ "Service")

grant-Granted :
    (route_namespace : String) (gs : List ReferenceGrant)
    → any (grant_allows route_namespace) gs ≡ true
    → Granted route_namespace gs
grant-Granted route_namespace gs h =
    let (g, i, t) = (any_iff _ gs).0 h in
    let (from, j, u) = (any_iff _ g.from).0 t in
    let (to, k, v) = (any_iff grant_to_matches g.to).0 (ground arith) in
    (
      g,
      from,
      to,
      i,
      j,
      k,
      ground (arith, eq_iff from.namespace route_namespace),
      ground (arith, eq_iff from.group group_name),
      ground (arith, eq_iff from.kind "HTTPRoute"),
      ground (arith, eq_iff to.group ""),
      ground (arith, eq_iff to.kind "Service"),
    )

Granted-grant :
    (route_namespace : String) (gs : List ReferenceGrant)
    → Granted route_namespace gs
    → any (grant_allows route_namespace) gs ≡ true
Granted-grant route_namespace gs (g, from, to, i, j, k, a, b, c, d, e) =
    let served =
      (any_iff grant_to_matches g.to).1
        (to, k, ground (arith, eq_iff to.group "", eq_iff to.kind "Service")) in
    (any_iff _ gs).1 (
      g,
      i,
      (any_iff _ g.from).1 (
        from,
        j,
        ground (
          arith,
          eq_iff from.namespace route_namespace,
          eq_iff from.group group_name,
          eq_iff from.kind "HTTPRoute",
        ),
      ),
    )

-- A reference from a route to a Service is allowed exactly where both are in one namespace, or the
-- grants of the Service's namespace can be listed and one of them names HTTPRoutes of the route's
-- namespace as its source and Services as its target.
pub allowed_by_reference_grant_iff :
    (route_namespace backend_namespace : String) (grants : String → Got (List ReferenceGrant))
    → (allowed_by_reference_grant route_namespace backend_namespace grants ≡ true) ↔ (
        (route_namespace ≡ backend_namespace)
        ⊎ ((gs : List ReferenceGrant) × (grants backend_namespace ≡ got gs)
            × Granted route_namespace gs))
unfolding allowed_by_reference_grant
allowed_by_reference_grant_iff r b grants = elim (Bool-cases (r == b)) [
  | inl e ↦ rw e (λ h. inl ((eq_iff r b).0 e), λ h. refl)
  | inr f ↦ rw f (
    to (grants b) refl,
    elim [ inl same ↦ let g = (eq_iff r b).1 same in absurd (cc) | inr g ↦ from (grants b) refl g ],
  )
]
  where
    to :
        (a : Got (List ReferenceGrant))
        → a ≡ grants b
        → elim a [ error msg ↦ false | got gs ↦ any (grant_allows r) gs ] ≡ true
        → (r ≡ b) ⊎ ((gs : List ReferenceGrant) × (grants b ≡ got gs) × Granted r gs)
    to (error msg) e h = absurd (cc)
    to (got gs) e h = inr (gs, sym e, grant-Granted r gs h)

    from :
        (a : Got (List ReferenceGrant))
        → a ≡ grants b
        → ((gs : List ReferenceGrant) × (grants b ≡ got gs) × Granted r gs)
        → elim a [ error msg ↦ false | got gs ↦ any (grant_allows r) gs ] ≡ true
    from (error msg) e (gs, p, g) = absurd (cc)
    from (got gs) e (hs, p, g) =
        let q : gs ≡ hs = cc in
        subst (λ z. any (grant_allows r) z ≡ true) (sym q) (Granted-grant r hs g)
