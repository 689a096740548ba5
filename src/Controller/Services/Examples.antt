-- ===== src/Controller/Services/Examples.antt =====
-- A witness for the Gateways that are queued for a Service.
use kube_agentic_networking.Common.{
  String, ◌≡◌, ◌↔◌, refl, sym, inl, inr, true, none, some, List, [], ◌∷◌, In, or_default,
}
use mathlib.Core.Path.{subst}
use kube_agentic_networking.Api.{Got, got, HttpRoute, BackendRef, ReferenceGrant}
use kube_agentic_networking.Translator.Samples.{store_service, store_route, to_service}
use kube_agentic_networking.Controller.Services.{
  object_key, http_route_service_ref_index_func, enqueue_direct_refs,
}
use kube_agentic_networking.Controller.Services.Indexed.{
  no_slash, PlainRefs, enqueue_direct_refs-indexed,
}

abbrev no_grants : String → Got (List ReferenceGrant)
no_grants namespace = got []

abbrev by_index : String → Got (List HttpRoute)
by_index key = got (store_route ∷ [])

store_route-keyed : In (object_key "shop" "store") (http_route_service_ref_index_func store_route)
unfolding http_route_service_ref_index_func
store_route-keyed = inl refl

store_route-plain : PlainRefs store_route
unfolding no_slash
store_route-plain rule ref (inl same) i = store_ref ref (subst (λ z. In ref z.backend_refs) same i)
  where
    store_ref :
        (ref : BackendRef)
        → In ref (to_service none ∷ [])
        → no_slash (or_default "shop" ref.namespace) ≡ true
    store_ref ref (inl e) =
        subst (λ z. no_slash (or_default "shop" z.namespace) ≡ true) (sym e) refl
    store_ref ref (inr i) = elim i [ ]
store_route-plain rule ref (inr i) j = elim i [ ]

shop-plain : no_slash "shop" ≡ true
unfolding no_slash
shop-plain = refl

enqueue_direct_refs-indexed_example :
    In "shop/front"
      (enqueue_direct_refs no_grants store_service (some by_index) (got (store_route ∷ [])))
    ↔ In "shop/front" (enqueue_direct_refs no_grants store_service none (got (store_route ∷ [])))
enqueue_direct_refs-indexed_example =
    enqueue_direct_refs-indexed no_grants store_service by_index (store_route ∷ [])
      (store_route ∷ []) refl
      (λ route. (
        λ i. elim i [
          | inl e ↦ (
            inl e,
            subst (λ z. In (object_key "shop" "store") (http_route_service_ref_index_func z))
                (sym e) store_route-keyed,
          )
          | inr j ↦ elim j [ ]
        ],
        λ p. p.0,
      ))
      shop-plain
      (λ route i. elim i [ inl e ↦ subst PlainRefs (sym e) store_route-plain | inr j ↦ elim j [ ] ])
      "shop/front"
