-- ===== src/Translator/Attachment/Kinds.antt =====
-- The kinds that a listener names, as its status reports them and as attachment reads them.
use kube_agentic_networking.Common.{
  ◌≡◌, refl, sym, ◌↔◌, inl, inr, true, ◌&&◌, List, [], ◌∷◌, arith, ◌==◌, eq_iff, if◌then◌else◌,
  Option-cases, All, is_empty,
}
use kube_agentic_networking.Api.{RouteGroupKind, Listener, HttpRoute, http_route}
use kube_agentic_networking.Translator.Attachment.{
  group_name, is_supported_kind, collect_kinds, get_supported_kinds, kinds_allow, default_kinds,
  listed_kinds, route_group_kind, allowed_group,
}

collect_kinds-valid :
    (kinds : List RouteGroupKind)
    → ((collect_kinds kinds).1 ≡ true) ↔ All (λ k. is_supported_kind k ≡ true) kinds
unfolding collect_kinds
collect_kinds-valid [] = (λ e. tt, λ e. refl)
collect_kinds-valid (k ∷ rest) = ground (arith, collect_kinds-valid rest)

supported-allows :
    (k : RouteGroupKind)
    → is_supported_kind k ≡ true
    → ("HTTPRoute" == k.kind && group_name == allowed_group k) ≡ true
supported-allows k e = elim (Option-cases k.group) [
  | inl unset ↦ rw unset (ground (arith, kind_eq))
  | inr (g, p) ↦
      let q : (g == group_name && k.kind == "HTTPRoute") ≡ true = rw p at e in
      let same : g ≡ group_name = (eq_iff g group_name).0 (ground arith) in
      rw (p, same) (ground (arith, kind_eq))
]
  where
    kind_eq : ("HTTPRoute" == k.kind) ≡ true
    kind_eq = (eq_iff "HTTPRoute" k.kind).1 (sym ((eq_iff k.kind "HTTPRoute").0 (ground arith)))

head-allows :
    (kinds : List RouteGroupKind) (route : HttpRoute)
    → All (λ k. is_supported_kind k ≡ true) kinds
    → kinds_allow kinds (route_group_kind (http_route route)) ≡ true
head-allows [] route h = refl
head-allows (k ∷ rest) route h = rw (supported-allows k h.0)

-- A listener whose status reports no invalid kind admits the kind of every HTTPRoute.
pub valid-kinds_allow :
    (listener : Listener) (route : HttpRoute)
    → (get_supported_kinds listener).1 ≡ true
    → kinds_allow (listed_kinds listener.allowed_routes) (route_group_kind (http_route route))
      ≡ true
unfolding get_supported_kinds
valid-kinds_allow listener route e = head-allows kinds route (valid kinds e)
  where
    kinds : List RouteGroupKind
    kinds = listed_kinds listener.allowed_routes

    valid :
        (ks : List RouteGroupKind)
        → (if is_empty ks then (default_kinds listener.protocol, true) else collect_kinds ks).1
          ≡ true
        → All (λ k. is_supported_kind k ≡ true) ks
    valid [] h = tt
    valid (k ∷ ks) h = (collect_kinds-valid (k ∷ ks)).0 h
