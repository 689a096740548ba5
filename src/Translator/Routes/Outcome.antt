-- ===== src/Translator/Routes/Outcome.antt =====
-- The condition ResolvedRefs of a route: translateHTTPRouteToEnvoyRoutes of
-- pkg/translator/httproute.go.
use kube_agentic_networking.Common.{
  ℕ, ◌+◌, String, ◌≡◌, ◌≢◌, ◌↔◌, ◌⊎◌, inl, inr, refl, sym, Option, none, some, List, [], ◌∷◌,
  Option-cases, ◌∙◌, ap, All, eq_iff,
}
use kube_agentic_networking.Api.{BackendRef, HttpRouteMatch, HttpRouteRule, HttpRoute}
use kube_agentic_networking.Translator.Env.{Translator}
use kube_agentic_networking.Translator.Envoy.{RedirectAction, RouteMatch, RouteAction}
use kube_agentic_networking.Translator.Matches.{
  Attempt, ok, unsupported_value, translate_match, translate_http_route_match,
  create_success_condition, create_failure_condition,
}
use kube_agentic_networking.Translator.Matches.Filters.{RuleFilters, no_filters, process_filters}
use kube_agentic_networking.Translator.Backends.{
  Result, ControllerError, RouteBackend, Result-cases,
}
use kube_agentic_networking.Translator.Routes.{
  Translated, build_http_route_action, build_route_for_match, add_forwarding, build_matches,
  build_rules, matches_of, translate_http_route_to_envoy_routes,
}

Attempt-cases {ℓ} :
    {A : Type ℓ} (a : Attempt A)
    → ((x : A) × (a ≡ ok x)) ⊎ ((msg : String) × (a ≡ unsupported_value msg))
Attempt-cases (ok x) = inl (x, refl)
Attempt-cases (unsupported_value msg) = inr (msg, refl)

failed_status :
    (m : HttpRouteMatch) (generation : ℕ) (msg : String)
    → translate_match m ≡ unsupported_value msg
    → (translate_http_route_match m generation).1.status ≡ "False"
unfolding translate_http_route_match create_failure_condition
failed_status m generation msg e = rw e

module _ (t : Translator) (route : HttpRoute) where
  -- The references of a rule resolve to backends of which one has a weight.
  abbrev pub CanForward : HttpRouteRule → Type 0
  CanForward rule =
      (found : RouteAction × List RouteBackend) × (build_http_route_action t route.meta.namespace
          rule.backend_refs
        ≡ Result.ok found)

  abbrev pub redirect_of : HttpRouteRule → Option RedirectAction
  redirect_of rule = (process_filters no_filters rule.filters).redirect_action

  -- A match is served: it can be translated, and the rule redirects or can forward.
  abbrev pub Served : HttpRouteRule → HttpRouteMatch → Type 0
  Served rule m =
      ((x : RouteMatch) × (translate_match m ≡ ok x))
      × ((redirect_of rule ≢ none) ⊎ CanForward rule)

  -- What a part of the translation does to the condition: nothing where what it serves is served.
  abbrev Step : Type 0 → Translated → Translated → Type 0
  Step P before after =
      (P × (after.overall_condition ≡ before.overall_condition))
      ⊎ ((P → ⊥) × (after.overall_condition.status ≡ "False"))

  Step-compose : (P Q : Type 0) (a b c : Translated) → Step P a b → Step Q b c → Step (P × Q) a c
  Step-compose P Q a b c (inl (p, e)) (inl (q, f)) = inl ((p, q), f ∙ e)
  Step-compose P Q a b c (inr (p, e)) (inl (q, f)) = inr (λ z. p z.0, ap (λ x. x.status) f ∙ e)
  Step-compose P Q a b c h (inr (q, f)) = inr (λ z. q z.1, f)

  module _ (f : RuleFilters) (refs : List BackendRef) (i j : ℕ) (m : HttpRouteMatch)
      (st : Translated) where
    untranslated :
        (msg : String)
        → translate_match m ≡ unsupported_value msg
        → (build_route_for_match t route f refs i m j st).overall_condition.status ≡ "False"
    unfolding build_route_for_match translate_http_route_match create_failure_condition
    untranslated msg e = rw (e, build_route_for_match) (failed_status m route.meta.generation msg e)

    redirects :
        (x : RouteMatch) (r : RedirectAction)
        → translate_match m ≡ ok x
        → f.redirect_action ≡ some r
        → (build_route_for_match t route f refs i m j st).overall_condition ≡ st.overall_condition
    unfolding build_route_for_match translate_http_route_match
    redirects x r e g = rw (e, g, build_route_for_match)

    forwards :
        (x : RouteMatch) (found : RouteAction × List RouteBackend)
        → translate_match m ≡ ok x
        → f.redirect_action ≡ none
        → build_http_route_action t route.meta.namespace refs ≡ Result.ok found
        → (build_route_for_match t route f refs i m j st).overall_condition ≡ st.overall_condition
    unfolding build_route_for_match translate_http_route_match add_forwarding
    forwards x found e g k = rw (e, g, k, build_route_for_match)

    stops :
        (x : RouteMatch) (d : ControllerError)
        → translate_match m ≡ ok x
        → f.redirect_action ≡ none
        → build_http_route_action t route.meta.namespace refs ≡ Result.fails d
        → (build_route_for_match t route f refs i m j st).overall_condition.status ≡ "False"
    unfolding build_route_for_match translate_http_route_match add_forwarding
        create_failure_condition
    stops x d e g k = rw (e, g, k, build_route_for_match)

  abbrev filters_of : HttpRouteRule → RuleFilters
  filters_of rule = process_filters no_filters rule.filters

  build_route_for_match-Step :
      (rule : HttpRouteRule) (i j : ℕ) (m : HttpRouteMatch) (st : Translated)
      → Step
          (Served rule m)
          st
          (build_route_for_match t route (filters_of rule) rule.backend_refs i m j st)
  build_route_for_match-Step rule i j m st = elim (Attempt-cases (translate_match m)) [
    | inr (msg, e) ↦
        inr (λ z. cc (z.0.1), untranslated (filters_of rule) rule.backend_refs i j m st msg e)
    | inl (x, e) ↦ elim (Option-cases (redirect_of rule)) [
      | inr (r, g) ↦
          inl (
            ((x, e), inl (λ z. cc)),
            redirects (filters_of rule) rule.backend_refs i j m st x r e g,
          )
      | inl g ↦
          elim (Result-cases (build_http_route_action t route.meta.namespace rule.backend_refs)) [
            | inl (found, k) ↦ inl (
              ((x, e), inr (found, k)),
              forwards (filters_of rule) rule.backend_refs i j m st x found e g k,
            )
            | inr (d, k) ↦ inr (
              λ z. elim z.1 [ inl n ↦ n g | inr (found, l) ↦ cc ],
              stops (filters_of rule) rule.backend_refs i j m st x d e g k,
            )
          ]
    ]
  ]

  build_matches-Step :
      (rule : HttpRouteRule) (i j : ℕ) (ms : List HttpRouteMatch) (st : Translated)
      → Step
          (All (Served rule) ms)
          st
          (build_matches t route (filters_of rule) rule.backend_refs i j ms st)
  unfolding build_matches
  build_matches-Step rule i j [] st = inl (tt, refl)
  build_matches-Step rule i j (m ∷ ms) st =
      let next = build_route_for_match t route (filters_of rule) rule.backend_refs i m j st in
      Step-compose (Served rule m) (All (Served rule) ms) st next
        (build_matches t route (filters_of rule) rule.backend_refs i (j + 1) ms next)
        (build_route_for_match-Step rule i j m st) (build_matches-Step rule i (j + 1) ms next)

  build_rules-Step :
      (i : ℕ) (rules : List HttpRouteRule) (st : Translated)
      → Step
          (All (λ rule. All (Served rule) (matches_of t route rule)) rules)
          st
          (build_rules t route i rules st)
  unfolding build_rules
  build_rules-Step i [] st = inl (tt, refl)
  build_rules-Step i (rule ∷ rules) st =
      let next =
        build_matches t route (filters_of rule) rule.backend_refs i 0 (matches_of t route rule)
          st in
      Step-compose (All (Served rule) (matches_of t route rule))
        (All (λ rule. All (Served rule) (matches_of t route rule)) rules) st next
        (build_rules t route (i + 1) rules next)
        (build_matches-Step rule i 0 (matches_of t route rule) st)
        (build_rules-Step (i + 1) rules next)

  abbrev start : Translated
  start = record {
    envoy_routes = [];
    all_valid_backends = [];
    overall_condition = create_success_condition route.meta.generation;
  }

  -- The route's condition ResolvedRefs is "True" exactly where each match of each rule is served: it
  -- can be translated, and its rule redirects, or all its references resolve and one has a weight
  -- above 0. Otherwise the condition is "False".
  pub translate_http_route-condition :
      (((translate_http_route_to_envoy_routes t route).overall_condition.status ≡ "True")
        ↔ All (λ rule. All (Served rule) (matches_of t route rule)) route.rules)
      × ((All (λ rule. All (Served rule) (matches_of t route rule)) route.rules → ⊥)
          → (translate_http_route_to_envoy_routes t route).overall_condition.status ≡ "False")
  unfolding translate_http_route_to_envoy_routes create_success_condition
  translate_http_route-condition = elim (build_rules-Step 0 route.rules start) [
    | inl (p, e) ↦ ((λ h. p, λ h. ap (λ c. c.status) e), λ n. absurd (n p))
    | inr (p, e) ↦ (
      (λ h. absurd (let f = (eq_iff "False" "True").1 (sym e ∙ h) in cc), λ h. absurd (p h)),
      λ n. e,
    )
  ]
