-- ===== src/Translator/Snapshot/Backed.antt =====
-- The backends behind the clusters that a translated route names: translateHTTPRouteToEnvoyRoutes of
-- pkg/translator/httproute.go.
use mathlib.Core.Path.{subst}
use kube_agentic_networking.Common.{
  ◌∙◌, ap, ℕ, ◌+◌, String, ◌≡◌, refl, sym, inl, inr, Option, none, some, List, [], ◌∷◌, ◌++◌, In,
  In-append,
}
use kube_agentic_networking.Api.{Condition, BackendRef, HttpRoute, HttpRouteRule, HttpRouteMatch}
use kube_agentic_networking.Translator.Env.{Translator}
use kube_agentic_networking.Translator.Envoy.{
  EnvoyRoute, redirect, route_to, direct_response, RouteAction, RouteMatch, ClusterWeight,
}
use kube_agentic_networking.Translator.Backends.{Result, ok, fails, RouteBackend}
use kube_agentic_networking.Translator.Matches.{translate_http_route_match}
use kube_agentic_networking.Translator.Matches.Filters.{RuleFilters, no_filters, process_filters}
use kube_agentic_networking.Translator.Routes.{
  Translated, build_http_route_action, merge_rewrite, make_route, add_forwarding, add_matched,
  build_route_for_match, build_matches, build_rules, matches_of, envoy_route_name,
  translate_http_route_to_envoy_routes,
}
use kube_agentic_networking.Translator.Snapshot.Fetched.{
  OnOk, Carries, Has, build_http_route_action-Carries,
}

-- The route sends requests to a cluster of the name.
abbrev pub Refers : EnvoyRoute → String → Type 0
Refers r name =
    (a : RouteAction) × (c : ClusterWeight) × (r.action ≡ route_to a)
    × In c a.clusters
    × (c.name ≡ name)

-- Every cluster that a route names is that of a backend among those returned.
abbrev pub IsBacked : Translated → Type 0
IsBacked st =
    (r : EnvoyRoute) (name : String)
    → In r st.envoy_routes
    → Refers r name
    → Has st.all_valid_backends name

-- One route more, and more backends.
IsBacked-grow :
    (st new : Translated) (r : EnvoyRoute)
    → IsBacked st
    → new.envoy_routes ≡ st.envoy_routes ++ r ∷ []
    → ((rb : RouteBackend) → In rb st.all_valid_backends → In rb new.all_valid_backends)
    → ((name : String) → Refers r name → Has new.all_valid_backends name)
    → IsBacked new
IsBacked-grow st new r backed e more fresh q name i refers =
    elim ((In-append q st.envoy_routes (r ∷ [])).0 (subst (In q) e i)) [
      | inl j ↦ let (rb, k, n, named) = backed q name j refers in (rb, more rb k, n, named)
      | inr j ↦ elim j [
        | inl same ↦ fresh name (subst (λ z. Refers z name) same refers)
        | inr k ↦ elim k [ ]
      ]
    ]

module _ (t : Translator) (route : HttpRoute) where
  add_forwarding-IsBacked :
      (f : RuleFilters) (name : String) (m : RouteMatch) (st : Translated)
      (result : Result (RouteAction × List RouteBackend))
      → OnOk Carries result
      → IsBacked st
      → IsBacked (add_forwarding t route f name m result st)
  unfolding add_forwarding make_route
  add_forwarding-IsBacked f name m st (fails e) h backed =
      IsBacked-grow st (add_forwarding t route f name m (fails e) st)
        (make_route t route f name m (direct_response 500)) backed refl (λ rb i. i)
        (λ n (a, c, q, i, s). absurd (cc))
  add_forwarding-IsBacked f name m st (ok (action, backends)) h backed =
      IsBacked-grow st (add_forwarding t route f name m (ok (action, backends)) st)
        (make_route t route f name m (route_to (merge_rewrite f.url_rewrite_action action))) backed
        refl (λ rb i. (In-append rb st.all_valid_backends backends).1 (inl i))
        (λ n (a, c, q, i, s).
          let (rb, j, e, named) = h c (subst (λ z. In c z) (merged f.url_rewrite_action a q) i) in
          (rb, (In-append rb st.all_valid_backends backends).1 (inr j), e ∙ s, named))
    where
      merged :
          (o : Option RouteAction) (a : RouteAction)
          → route_to (merge_rewrite o action) ≡ route_to a
          → a.clusters ≡ action.clusters
      merged none a q = let e : action ≡ a = cc in ap (λ z. z.clusters) (sym e)
      merged (some r) a q =
          let e : merge_rewrite (some r) action ≡ a = cc in ap (λ z. z.clusters) (sym e)

  add_matched-IsBacked :
      (f : RuleFilters) (refs : List BackendRef) (name : String) (m : RouteMatch) (st : Translated)
      → IsBacked st
      → IsBacked (add_matched t route f refs name m st)
  unfolding make_route
  add_matched-IsBacked f refs name m st backed = by_redirect f.redirect_action
    where
      by_redirect :
          (o : Option _)
          → IsBacked (elim o [
            | some action ↦ record st {
              envoy_routes = st.envoy_routes ++ make_route t route f name m (redirect action) ∷ [];
            }
            | none ↦
                add_forwarding t route f name m
                  (build_http_route_action t route.meta.namespace refs)
                  st
          ])
      by_redirect none =
          add_forwarding-IsBacked f name m st _
            (build_http_route_action-Carries t route.meta.namespace refs) backed
      by_redirect (some action) =
          IsBacked-grow st
            (record st {
              envoy_routes = st.envoy_routes ++ make_route t route f name m (redirect action) ∷ [];
            })
            (make_route t route f name m (redirect action)) backed refl (λ rb i. i)
            (λ n (a, c, q, i, s). absurd (cc))

  build_route_for_match-IsBacked :
      (f : RuleFilters) (refs : List BackendRef) (rule_index : ℕ) (m : HttpRouteMatch)
      (match_index : ℕ) (st : Translated)
      → IsBacked st
      → IsBacked (build_route_for_match t route f refs rule_index m match_index st)
  unfolding build_route_for_match
  build_route_for_match-IsBacked f refs rule_index m match_index st backed =
      by_match (translate_http_route_match m route.meta.generation)
    where
      by_match :
          (found : Option RouteMatch × Condition)
          → IsBacked (elim found.0 [
            | none ↦ record st { overall_condition = found.1 }
            | some rm ↦
                add_matched t route f refs (envoy_route_name route rule_index match_index) rm st
          ])
      by_match (none, c) = backed
      by_match (some rm, c) =
          add_matched-IsBacked f refs (envoy_route_name route rule_index match_index) rm st backed

  build_matches-IsBacked :
      (f : RuleFilters) (refs : List BackendRef) (rule_index match_index : ℕ)
      (ms : List HttpRouteMatch) (st : Translated)
      → IsBacked st
      → IsBacked (build_matches t route f refs rule_index match_index ms st)
  unfolding build_matches
  build_matches-IsBacked f refs rule_index match_index [] st backed = backed
  build_matches-IsBacked f refs rule_index match_index (m ∷ ms) st backed =
      build_matches-IsBacked f refs rule_index (match_index + 1) ms _
        (build_route_for_match-IsBacked f refs rule_index m match_index st backed)

  build_rules-IsBacked :
      (rule_index : ℕ) (rules : List HttpRouteRule) (st : Translated)
      → IsBacked st
      → IsBacked (build_rules t route rule_index rules st)
  unfolding build_rules
  build_rules-IsBacked rule_index [] st backed = backed
  build_rules-IsBacked rule_index (rule ∷ rules) st backed =
      build_rules-IsBacked (rule_index + 1) rules _ (
        build_matches-IsBacked (process_filters no_filters rule.filters) rule.backend_refs
          rule_index 0 (matches_of t route rule) st backed)

  pub translate-IsBacked : IsBacked (translate_http_route_to_envoy_routes t route)
  unfolding translate_http_route_to_envoy_routes
  translate-IsBacked = build_rules-IsBacked 0 route.rules _ (λ r name i. elim i [ ])
