-- ===== src/Translator/Snapshot/Served.antt =====
-- The clusters that the routes of a listener name: the loop over routesByListener in
-- buildEnvoyResourcesForGateway of pkg/translator/translator.go.
use mathlib.Core.Path.{subst}
use kube_agentic_networking.Common.{
  ◌==◌, eq_iff, some_inj, lookup-insert_self, ℕ, String, ◌≡◌, refl, sym, inl, inr, some, List, [],
  ◌∷◌, ◌++◌, or_default, lookup, insert, lookup-insert, lookup-In-values, In-values-insert, values,
  string_eq, In, In-append, Bool-cases, Option-cases, bind-cases,
}
use kube_agentic_networking.Api.{Listener, Gateway, HttpRoute}
use kube_agentic_networking.Translator.Envoy.{EnvoyRoute, VirtualHost, Cluster}
use kube_agentic_networking.Translator.Snapshot.{Context, Work, RouteConfiguration}
use kube_agentic_networking.Translator.Hostnames.{get_intersecting_hostnames}
use kube_agentic_networking.Translator.Backends.{build_clusters}
use kube_agentic_networking.Translator.Routes.{Translated, translate_http_route_to_envoy_routes}
use kube_agentic_networking.Translator.Snapshot.Fetched.{build_clusters-named}
use kube_agentic_networking.Translator.Snapshot.Backed.{Refers, translate-IsBacked}
use kube_agentic_networking.Translator.Snapshot.Routing.{
  add_translated, with_resolved, add_clusters, new_host, add_to_host, add_to_hosts, aggregate,
  add_route, add_routes,
}

-- The map has a cluster of the name under the name.
abbrev pub Serves : List (String × Cluster) → String → Type 0
Serves m name = (c : Cluster) × (lookup name m ≡ some c) × (c.name ≡ name)

insert-Serves :
    (c : Cluster) (m : List (String × Cluster)) (name : String)
    → Serves m name
    → Serves (insert c.name c m) name
insert-Serves c m name (d, e, n) = elim (Bool-cases (c.name == name)) [
  | inl t ↦ (c, rw (lookup-insert, t), (eq_iff c.name name).0 t)
  | inr f ↦ (d, rw (lookup-insert, f, e), n)
]

insert-Serves_self : (c : Cluster) (m : List (String × Cluster)) → Serves (insert c.name c m) c.name
insert-Serves_self c m = (c, lookup-insert_self c.name c m, refl)

pub add_clusters-Serves :
    (cs : List Cluster) (m : List (String × Cluster)) (name : String)
    → Serves m name
    → Serves (add_clusters cs m) name
unfolding add_clusters
add_clusters-Serves [] m name h = h
add_clusters-Serves (c ∷ cs) m name h =
    add_clusters-Serves cs (insert c.name c m) name (insert-Serves c m name h)

add_clusters-new :
    (cs : List Cluster) (m : List (String × Cluster)) (c : Cluster)
    → In c cs
    → Serves (add_clusters cs m) c.name
unfolding add_clusters
add_clusters-new [] m c i = elim i [ ]
add_clusters-new (d ∷ cs) m c (inl e) =
    subst (λ z. Serves (add_clusters cs (insert d.name d m)) z.name) (sym e)
      (add_clusters-Serves cs (insert d.name d m) d.name (insert-Serves_self d m))
add_clusters-new (d ∷ cs) m c (inr i) = add_clusters-new cs (insert d.name d m) c i

-- Every cluster that the routes name is one of the map.
abbrev pub RoutesServed : List EnvoyRoute → List (String × Cluster) → Type 0
RoutesServed routes m =
    (r : EnvoyRoute) (name : String) → In r routes → Refers r name → Serves m name

abbrev pub HostsServed : List VirtualHost → List (String × Cluster) → Type 0
HostsServed hosts m = (vh : VirtualHost) → In vh hosts → RoutesServed vh.routes m

abbrev pub ConfigsServed : List RouteConfiguration → List (String × Cluster) → Type 0
ConfigsServed configs m = (rc : RouteConfiguration) → In rc configs → HostsServed rc.virtual_hosts m

-- The invariant of the loops.
abbrev pub IsServed : Work → Type 0
IsServed w =
    HostsServed (values w.virtual_hosts) w.clusters × ConfigsServed w.route_configs w.clusters

RoutesServed-append :
    (rs more : List EnvoyRoute) (m : List (String × Cluster))
    → RoutesServed rs m
    → RoutesServed more m
    → RoutesServed (rs ++ more) m
RoutesServed-append rs more m h k r name i refers = elim ((In-append r rs more).0 i) [
  | inl j ↦ h r name j refers
  | inr j ↦ k r name j refers
]

module _ (gateway : Gateway) (port : ℕ) (m : List (String × Cluster)) where
  old_host-served :
      (domain : String) (hosts : List (String × VirtualHost))
      → HostsServed (values hosts) m
      → RoutesServed (or_default (new_host gateway port domain) (lookup domain hosts)).routes m
  unfolding new_host
  old_host-served domain hosts h = elim (Option-cases (lookup domain hosts)) [
    | inl e ↦ rw e (λ r name i. elim i [ ])
    | inr (vh, e) ↦ rw e (h vh (lookup-In-values domain hosts e))
  ]

  add_to_host-served :
      (routes : List EnvoyRoute) (domain : String) (hosts : List (String × VirtualHost))
      → RoutesServed routes m
      → HostsServed (values hosts) m
      → HostsServed (values (add_to_host gateway port routes domain hosts)) m
  unfolding add_to_host
  add_to_host-served routes domain hosts new h vh i = elim (In-values-insert domain _ vh hosts i) [
    | inl e ↦
        subst (λ z. RoutesServed z.routes m) (sym e)
          (RoutesServed-append _ routes m (old_host-served domain hosts h) new)
    | inr j ↦ h vh j
  ]

  add_to_hosts-served :
      (routes : List EnvoyRoute) (domains : List String) (hosts : List (String × VirtualHost))
      → RoutesServed routes m
      → HostsServed (values hosts) m
      → HostsServed (values (add_to_hosts gateway port routes domains hosts)) m
  unfolding add_to_hosts
  add_to_hosts-served routes [] hosts new h = h
  add_to_hosts-served routes (d ∷ ds) hosts new h =
      add_to_hosts-served routes ds _ new (add_to_host-served routes d hosts new h)

aggregate-IsServed :
    (gateway : Gateway) (port : ℕ) (domains : List String) (routes : List EnvoyRoute) (w : Work)
    → RoutesServed routes w.clusters
    → IsServed w
    → IsServed (aggregate gateway port domains routes w)
unfolding aggregate
aggregate-IsServed gateway port domains [] w new h = h
aggregate-IsServed gateway port domains (r ∷ rs) w new (hosts, configs) = (
  add_to_hosts-served gateway port w.clusters (r ∷ rs) domains w.virtual_hosts new hosts,
  configs,
)

module _ (ctx : Context) (gateway : Gateway) (port : ℕ) (l : Listener) (route : HttpRoute) where
  add_translated-IsServed :
      (translated : Translated) (cs : List Cluster) (w : Work)
      → RoutesServed translated.envoy_routes (add_clusters cs w.clusters)
      → IsServed w
      → IsServed (add_translated ctx gateway port l route translated cs w)
  add_translated-IsServed translated cs w new (hosts, configs) =
      let kept : (name : String)
          → Serves w.clusters name
          → Serves (add_clusters cs w.clusters) name =
        λ name. add_clusters-Serves cs w.clusters name in
      aggregate-IsServed gateway port
        (get_intersecting_hostnames ctx.order_hostnames l route.hostnames) translated.envoy_routes
        (record w {
          route_statuses =
              with_resolved ctx gateway port l route translated.overall_condition w.route_statuses;
          clusters = add_clusters cs w.clusters;
        })
        new
        (
          (λ vh i r name j refers. kept name (hosts vh i r name j refers)),
          (λ rc i vh j r name k refers. kept name (configs rc i vh j r name k refers)),
        )

  -- One route of a listener.
  add_route-IsServed :
      (w next : Work)
      → add_route ctx gateway port l route w ≡ some next
      → IsServed w
      → IsServed next
  unfolding add_route
  add_route-IsServed w next run served =
      let translated = translate_http_route_to_envoy_routes ctx.translator route in
      let (cs, built, same) =
        bind-cases (build_clusters translated.all_valid_backends) _ next run in
      subst IsServed (some_inj same) (
        add_translated-IsServed translated cs w
          (λ r name i refers.
            let (c, j, e) =
              build_clusters-named translated.all_valid_backends cs name built
                (translate-IsBacked ctx.translator route r name i refers) in
            subst (Serves (add_clusters cs w.clusters)) e (add_clusters-new cs w.clusters c j))
          served)

pub add_routes-IsServed :
    (ctx : Context) (gateway : Gateway) (port : ℕ) (l : Listener) (routes : List HttpRoute)
    (w next : Work)
    → add_routes ctx gateway port l routes w ≡ some next
    → IsServed w
    → IsServed next
unfolding add_routes
add_routes-IsServed ctx gateway port l [] w next run h = subst IsServed (some_inj run) h
add_routes-IsServed ctx gateway port l (route ∷ routes) w next run h =
    let (mid, first, later) = bind-cases (add_route ctx gateway port l route w) _ next run in
    add_routes-IsServed ctx gateway port l routes mid next later
      (add_route-IsServed ctx gateway port l route w mid first h)
