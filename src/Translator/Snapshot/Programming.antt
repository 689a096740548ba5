-- ===== src/Translator/Snapshot/Programming.antt =====
-- One listener of a port: the body of the loop over a port's listeners in buildEnvoyResourcesForGateway of
-- pkg/translator/translator.go.
use kube_agentic_networking.Common.{
  ℕ, String, not, Option, some, List, [], ◌∷◌, ◌++◌, if◌then◌else◌, or_default, lookup, insert,
  string_eq, ◌>>=◌, concat,
}
use kube_agentic_networking.Api.{Got, got, error, Condition, Listener, Gateway}
use kube_agentic_networking.Translator.Attachment.{is_http, get_supported_kinds}
use kube_agentic_networking.Translator.Conflicts.{ConditionsMap, resolved_refs}
use kube_agentic_networking.Translator.FilterChains.{
  FilterChain, translate_listener_to_filter_chain,
}
use kube_agentic_networking.Translator.Snapshot.{Context, Work, ListenerStatus, RoutesByListener}
use kube_agentic_networking.Translator.Snapshot.Routing.{add_routes}

abbrev pub invalid_route_kinds : ℕ → Condition
invalid_route_kinds generation = record {
  type = "ResolvedRefs";
  status = "False";
  reason = "InvalidRouteKinds";
  message = "Invalid route kinds specified in allowedRoutes";
  observed_generation = generation;
}

abbrev pub not_programmed : ℕ → String → Condition
not_programmed generation msg = record {
  type = "Programmed";
  status = "False";
  reason = "Invalid";
  message = concat ("Failed to program listener: " ∷ msg ∷ []);
  observed_generation = generation;
}

abbrev pub listener_programmed : ℕ → Condition
listener_programmed generation = record {
  type = "Programmed";
  status = "True";
  reason = "Programmed";
  message = "Listener is programmed";
  observed_generation = generation;
}

abbrev pub listener_accepted : ℕ → Condition
listener_accepted generation = record {
  type = "Accepted";
  status = "True";
  reason = "Accepted";
  message = "Listener is valid";
  observed_generation = generation;
}

abbrev pub put_status : ListenerStatus → Work → Work
put_status s w = record w { listener_statuses = insert s.name s w.listener_statuses }

module _ (ctx : Context) (gateway : Gateway) where
  abbrev pub set_condition : Condition → ListenerStatus → ListenerStatus
  set_condition c s = record s { conditions = ctx.ops.set_status_condition s.conditions c }

  abbrev pub start_status : ConditionsMap → Listener → ListenerStatus
  start_status validated l = record {
    name = l.name;
    supported_kinds = (get_supported_kinds l).0;
    attached_routes = 0;
    conditions = or_default [] (lookup l.name validated);
  }

  abbrev pub set_references : ListenerStatus → ListenerStatus
  set_references s =
      if ctx.ops.is_status_condition_false s.conditions "ResolvedRefs"
      then s
      else set_condition (resolved_refs gateway.meta.generation) s

  -- What is done with the filter chain of the listener.
  unfoldable pub add_chain : Got (Option FilterChain) → ListenerStatus → Work → Work
  unfolding insert
  add_chain (error msg) s w =
      put_status
        (set_condition (listener_accepted gateway.meta.generation)
          (record (set_condition (not_programmed gateway.meta.generation msg) s) {
            attached_routes = w.attached_routes;
          }))
        w
  add_chain (got chain) s w =
      put_status
        (set_condition (listener_accepted gateway.meta.generation)
          (record (set_condition (listener_programmed gateway.meta.generation) s) {
            attached_routes = w.attached_routes;
          }))
        (record w { filter_chains = w.filter_chains ++ chain ∷ [] })

  module _ (by_listener : RoutesByListener) (port : ℕ) (route_name : String) where
    -- Only the listeners of HTTP and HTTPS process routes.
    abbrev pub route_listener : Listener → Work → Option Work
    route_listener l w =
        if is_http l.protocol
        then add_routes ctx gateway port l (or_default [] (lookup l.name by_listener)) w
        else some w

    unfoldable pub program_listener : Listener → ListenerStatus → Work → Option Work
    unfolding add_routes add_chain translate_listener_to_filter_chain lookup
    program_listener l s w = do
      routed ← route_listener l (record w { attached_routes = 0 })
      some (
          add_chain (translate_listener_to_filter_chain ctx.translator l route_name)
            (set_references s) routed)

    unfoldable pub process_listener : ConditionsMap → Listener → Work → Option Work
    unfolding program_listener get_supported_kinds lookup insert
    process_listener validated l w =
        let s = start_status validated l in
        if not (get_supported_kinds l).1
        then some (put_status (set_condition (invalid_route_kinds gateway.meta.generation) s) w)
        else if ctx.ops.is_status_condition_true s.conditions "Conflicted"
        then some (put_status s w)
        else program_listener l s w

    unfoldable pub process_listeners : ConditionsMap → List Listener → Work → Option Work
    unfolding process_listener
    process_listeners validated [] w = some w
    process_listeners validated (l ∷ ls) w = do
      next ← process_listener validated l w
      process_listeners validated ls next
