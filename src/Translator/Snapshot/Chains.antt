-- ===== src/Translator/Snapshot/Chains.antt =====
-- The filter chains of the listeners of a port: the loop over a port's listeners in buildEnvoyResourcesForGateway of
-- pkg/translator/translator.go.
use mathlib.Core.Path.{subst}
use mathlib.Core.List.{append-nil, append_assoc}
use kube_agentic_networking.Common.{
  ℕ, String, ◌≡◌, refl, sym, ap, ◌∙◌, ◌⊎◌, inl, inr, true, false, Option, some, List, [], ◌∷◌, ◌++◌,
  or_default, lookup, string_eq, Bool-cases, bind-cases, some_inj,
}
use kube_agentic_networking.Api.{Got, got, error, Listener, Gateway, HttpRoute}
use kube_agentic_networking.Translator.Envoy.{EnvoyRoute}
use kube_agentic_networking.Translator.Attachment.{is_http, get_supported_kinds}
use kube_agentic_networking.Translator.Hostnames.{get_intersecting_hostnames}
use kube_agentic_networking.Translator.Routes.{translate_http_route_to_envoy_routes}
use kube_agentic_networking.Translator.Backends.{build_clusters}
use kube_agentic_networking.Translator.Conflicts.{ConditionsMap}
use kube_agentic_networking.Translator.FilterChains.{
  FilterChain, translate_listener_to_filter_chain,
}
use kube_agentic_networking.Translator.Snapshot.{Context, Work, ListenerStatus, RoutesByListener}
use kube_agentic_networking.Translator.Snapshot.Served.{Serves, add_clusters-Serves}
use kube_agentic_networking.Translator.Snapshot.Routing.{
  add_clusters, with_resolved, aggregate, add_route, add_routes,
}
use kube_agentic_networking.Translator.Snapshot.Programming.{
  add_chain, start_status, route_listener, program_listener, process_listener, process_listeners,
}

-- The Envoy listeners stay as they were, and the names of clusters that are served stay served.
abbrev pub Continues : Work → Work → Type 0
Continues w next =
    (next.envoy_listeners ≡ w.envoy_listeners)
    × ((name : String) → Serves w.clusters name → Serves next.clusters name)

Continues-trans : (a b c : Work) → Continues a b → Continues b c → Continues a c
Continues-trans a b c (p, f) (q, g) = (q ∙ p, λ name h. g name (f name h))

Continues-refl : (w : Work) → Continues w w
Continues-refl w = (refl, λ name h. h)

-- The filter chains stay as well.
abbrev Untouched : Work → Work → Type 0
Untouched w next = (next.filter_chains ≡ w.filter_chains) × Continues w next

aggregate-Untouched :
    (gateway : Gateway) (port : ℕ) (domains : List String) (routes : List EnvoyRoute) (w : Work)
    → Untouched w (aggregate gateway port domains routes w)
unfolding aggregate
aggregate-Untouched gateway port domains [] w = (refl, (refl, λ name h. h))
aggregate-Untouched gateway port domains (r ∷ rs) w = (refl, (refl, λ name h. h))

module _ (ctx : Context) (gateway : Gateway) (port : ℕ) (l : Listener) where
  add_route-Untouched :
      (route : HttpRoute) (w next : Work)
      → add_route ctx gateway port l route w ≡ some next
      → Untouched w next
  unfolding add_route
  add_route-Untouched route w next run =
      let translated = translate_http_route_to_envoy_routes ctx.translator route in
      let (clusters, built, last) =
        bind-cases (build_clusters translated.all_valid_backends) _ next run in
      let stored : Work = record w {
        route_statuses =
            with_resolved ctx gateway port l route translated.overall_condition w.route_statuses;
        clusters = add_clusters clusters w.clusters;
      } in
      let domains = get_intersecting_hostnames ctx.order_hostnames l route.hostnames in
      let (chains, rest) =
        aggregate-Untouched gateway port domains translated.envoy_routes stored in
      subst (Untouched w) (some_inj last) (
        chains,
        Continues-trans w stored (aggregate gateway port domains translated.envoy_routes stored)
            (refl, add_clusters-Serves clusters w.clusters) rest,
      )

  add_routes-Untouched :
      (routes : List HttpRoute) (w next : Work)
      → add_routes ctx gateway port l routes w ≡ some next
      → Untouched w next
  unfolding add_routes
  add_routes-Untouched [] w next run = subst (Untouched w) (some_inj run) (refl, Continues-refl w)
  add_routes-Untouched (route ∷ routes) w next run =
      let (mid, first, later) = bind-cases (add_route ctx gateway port l route w) _ next run in
      let (a, b) = add_route-Untouched route w mid first in
      let (c, d) = add_routes-Untouched routes mid next later in
      (c ∙ a, Continues-trans w mid next b d)

module _ (ctx : Context) (gateway : Gateway) (validated : ConditionsMap) (route_name : String) where
  -- A listener that gets no filter chain: it has invalid route kinds, it is in conflict, or it cannot be
  -- translated.
  abbrev pub LeftOut : Listener → Type 0
  LeftOut l =
      ((get_supported_kinds l).1 ≡ false)
      ⊎ (ctx.ops.is_status_condition_true (or_default [] (lookup l.name validated)) "Conflicted"
          ≡ true)
      ⊎ ((msg : String) × (translate_listener_to_filter_chain ctx.translator l route_name
            ≡ error msg))

  -- A listener with valid route kinds and without conflict that translates to `c`.
  abbrev pub Programs : Listener → Option FilterChain → Type 0
  Programs l c =
      ((get_supported_kinds l).1 ≡ true)
      × (ctx.ops.is_status_condition_true (or_default [] (lookup l.name validated)) "Conflicted"
          ≡ false)
      × (translate_listener_to_filter_chain ctx.translator l route_name ≡ got c)

  -- The filter chains of listeners, in order.
  pub data Chains : List Listener → List (Option FilterChain) → Type 0 where
    nothing : Chains [] []
    left_out :
        (l : Listener) (ls : List Listener) (cs : List (Option FilterChain))
        → LeftOut l
        → Chains ls cs
        → Chains (l ∷ ls) cs
    has_chain :
        (l : Listener) (c : Option FilterChain) (ls : List Listener)
        (cs : List (Option FilterChain))
        → Programs l c
        → Chains ls cs
        → Chains (l ∷ ls) (c ∷ cs)

  -- What the body of the loop does with one listener.
  abbrev Adds : Listener → Work → Work → Type 0
  Adds l w next =
      Continues w next
      × (((next.filter_chains ≡ w.filter_chains) × LeftOut l)
          ⊎ (c : Option FilterChain) × (next.filter_chains ≡ w.filter_chains ++ c ∷ [])
            × Programs l c)

  -- The chains of the listeners come behind those that are there.
  abbrev pub GrowsBy : List Listener → Work → Work → Type 0
  GrowsBy ls w next =
      (cs : List (Option FilterChain)) × Chains ls cs × (next.filter_chains ≡ w.filter_chains ++ cs)

  -- The chain that a listener with valid kinds and without conflict adds.
  abbrev ChainAdded : Got (Option FilterChain) → Work → Work → Type 0
  ChainAdded g w next =
      Continues w next
      × (((next.filter_chains ≡ w.filter_chains) × ((msg : String) × (g ≡ error msg)))
          ⊎ (c : Option FilterChain) × (next.filter_chains ≡ w.filter_chains ++ c ∷ [])
            × (g ≡ got c))

  add_chain-ChainAdded :
      (g : Got (Option FilterChain)) (s : ListenerStatus) (w : Work)
      → ChainAdded g w (add_chain ctx gateway g s w)
  unfolding add_chain
  add_chain-ChainAdded (error msg) s w = (Continues-refl w, inl (refl, (msg, refl)))
  add_chain-ChainAdded (got c) s w = (Continues-refl w, inr (c, refl, refl))

  module _ (by_listener : RoutesByListener) (port : ℕ) where
    route_listener-Untouched :
        (l : Listener) (w next : Work)
        → route_listener ctx gateway by_listener port route_name l w ≡ some next
        → Untouched w next
    route_listener-Untouched l w next run = elim (Bool-cases (is_http l.protocol)) [
      | inl t ↦
          add_routes-Untouched ctx gateway port l (or_default [] (lookup l.name by_listener)) w next
            (rw t at run)
      | inr f ↦ subst (Untouched w) (some_inj (rw f at run)) (refl, Continues-refl w)
    ]

    program_listener-ChainAdded :
        (l : Listener) (s : ListenerStatus) (w next : Work)
        → program_listener ctx gateway by_listener port route_name l s w ≡ some next
        → ChainAdded (translate_listener_to_filter_chain ctx.translator l route_name) w next
    unfolding program_listener
    program_listener-ChainAdded l s w next run =
        let start : Work = record w { attached_routes = 0 } in
        let (routed, first, last) =
          bind-cases (route_listener ctx gateway by_listener port route_name l start) _ next run in
        let (chains, listeners) = route_listener-Untouched l start routed first in
        let g = translate_listener_to_filter_chain ctx.translator l route_name in
        let (same, either) =
          subst (ChainAdded g routed) (some_inj last) (add_chain-ChainAdded g _ routed) in
        (
          Continues-trans w routed next listeners same,
          elim either [
            | inl (kept, failed) ↦ inl (kept ∙ chains, failed)
            | inr (c, grown, done) ↦ inr (c, grown ∙ ap (λ z. z ++ c ∷ []) chains, done)
          ],
        )

    process_listener-Adds :
        (l : Listener) (w next : Work)
        → process_listener ctx gateway by_listener port route_name validated l w ≡ some next
        → Adds l w next
    unfolding process_listener
    process_listener-Adds l w next run = elim (Bool-cases (get_supported_kinds l).1) [
      | inr invalid ↦
          subst (Adds l w) (some_inj (rw invalid at run))
            (Continues-refl w, inl (refl, inl invalid))
      | inl valid ↦
          elim (Bool-cases (
            ctx.ops.is_status_condition_true (start_status ctx gateway validated l).conditions
              "Conflicted")) [
                | inl conflict ↦
                    subst (Adds l w) (some_inj (rw (valid, conflict) at run))
                      (Continues-refl w, inl (refl, inr (inl conflict)))
                | inr free ↦ translated valid free (
                    program_listener-ChainAdded l (start_status ctx gateway validated l) w next
                      (rw (valid, free) at run))
              ]
    ]
      where
        translated :
            (get_supported_kinds l).1 ≡ true
            → ctx.ops.is_status_condition_true
                (or_default [] (lookup l.name validated))
                "Conflicted"
              ≡ false
            → ChainAdded (translate_listener_to_filter_chain ctx.translator l route_name) w next
            → Adds l w next
        translated valid free (same, inl (kept, failed)) = (same, inl (kept, inr (inr failed)))
        translated valid free (same, inr (c, grown, done)) =
            (same, inr (c, grown, (valid, free, done)))

    pub process_listeners-Chains :
        (ls : List Listener) (w next : Work)
        → process_listeners ctx gateway by_listener port route_name validated ls w ≡ some next
        → Continues w next × GrowsBy ls w next
    unfolding process_listeners
    process_listeners-Chains [] w next run =
        subst (λ z. Continues w z × GrowsBy [] w z) (some_inj run)
          (Continues-refl w, ([], nothing, sym (append-nil w.filter_chains)))
    process_listeners-Chains (l ∷ ls) w next run =
        let (mid, first, later) =
          bind-cases (process_listener ctx gateway by_listener port route_name validated l w) _ next
            run in
        let (same, (cs, chains, rest)) = process_listeners-Chains ls mid next later in
        let (kept, either) = process_listener-Adds l w mid first in
        let (found, there, last) : GrowsBy (l ∷ ls) w next = elim either [
          | inl (none_added, out) ↦
              (cs, left_out l ls cs out chains, rest ∙ ap (λ z. z ++ cs) none_added)
          | inr (c, added, programs) ↦ (
            c ∷ cs,
            has_chain l c ls cs programs chains,
            rest ∙ ap (λ z. z ++ cs) added ∙ append_assoc w.filter_chains (c ∷ []) cs,
          )
        ] in
        (Continues-trans w mid next kept same, (found, there, last))
