-- ===== src/Translator/Conflicts.antt =====
-- Conflicts between the listeners of a Gateway: setListenerCondition and validateListeners of
-- pkg/translator/listener.go.
--
-- The loop over the ports goes in the order of a map's iteration, for which `order` stands.
pub mod Marks
pub mod Clashes
pub mod Ports
mod Examples
use kube_agentic_networking.Common.{
  ℕ, String, Bool, true, false, ◌&&◌, Option, none, some, List, [], ◌∷◌, ◌++◌, if◌then◌else◌,
  or_default, any, insert, lookup, string_eq, nat_eq, concat,
}
use kube_agentic_networking.Api.{Condition, Protocol, http, https, tls, tcp, udp, Listener, Gateway}
use kube_agentic_networking.Translator.Conditions.{ConditionOps}

abbrev pub ConditionsMap : Type 0
ConditionsMap = List (String × List Condition)

abbrev pub is_tcp_or_udp : Protocol → Bool
is_tcp_or_udp tcp = true
is_tcp_or_udp udp = true
is_tcp_or_udp _ = false

abbrev pub uses_hostnames : Protocol → Bool
uses_hostnames http = true
uses_hostnames https = true
uses_hostnames tls = true
uses_hostnames _ = false

abbrev pub hostname_or_empty : Listener → String
hostname_or_empty l = or_default "" l.hostname

-- listenersByPort, with its listeners in the order of the Gateway
unfoldable pub group_by_port : List (ℕ × List Listener) → List Listener → List (ℕ × List Listener)
unfolding insert lookup
group_by_port groups [] = groups
group_by_port groups (l ∷ rest) =
    group_by_port (insert l.port (or_default [] (lookup l.port groups) ++ l ∷ []) groups) rest

unfoldable pub init_conditions : ConditionsMap → List Listener → ConditionsMap
unfolding insert
init_conditions m [] = m
init_conditions m (l ∷ rest) = init_conditions (insert l.name [] m) rest

abbrev pub protocol_conflict : Condition
protocol_conflict = record {
  type = "Conflicted";
  status = "True";
  reason = "ProtocolConflict";
  message =
      "Protocol conflict: TCP/UDP listeners cannot share a port with HTTP/HTTPS/TLS listeners.";
  observed_generation = 0;
}

abbrev pub hostname_conflict : String → Condition
hostname_conflict hostname = record {
  type = "Conflicted";
  status = "True";
  reason = "HostnameConflict";
  message =
      concat ("Hostname '" ∷ hostname ∷ "' conflicts with another listener on the same port." ∷ []);
  observed_generation = 0;
}

abbrev pub resolved_refs : ℕ → Condition
resolved_refs generation = record {
  type = "ResolvedRefs";
  status = "True";
  reason = "ResolvedRefs";
  message = "All references resolved";
  observed_generation = generation;
}

module _ (ops : ConditionOps) where
  unfoldable pub set_listener_condition : ConditionsMap → String → Condition → ConditionsMap
  unfolding insert lookup
  set_listener_condition m name c =
      insert name (ops.set_status_condition (or_default [] (lookup name m)) c) m

  unfoldable pub conflict_all : ConditionsMap → List Listener → ConditionsMap
  unfolding set_listener_condition
  conflict_all m [] = m
  conflict_all m (l ∷ rest) = conflict_all (set_listener_condition m l.name protocol_conflict) rest

  -- A hostname of the port: seen first, or seen before under the name of another listener.
  unfoldable pub note_hostname :
      List (String × String)
      → ConditionsMap
      → Listener
      → Option String
      → List (String × String) × ConditionsMap
  unfolding set_listener_condition insert
  note_hostname seen m l none = (insert (hostname_or_empty l) l.name seen, m)
  note_hostname seen m l (some first) =
      let c = hostname_conflict (hostname_or_empty l) in
      (seen, set_listener_condition (set_listener_condition m l.name c) first c)

  -- The loop that looks for hostnames in use twice, with `seenHostnames`.
  unfoldable pub check_hostnames :
      List (String × String) → ConditionsMap → List Listener → ConditionsMap
  unfolding note_hostname lookup
  check_hostnames seen m [] = m
  check_hostnames seen m (l ∷ rest) =
      let (seen', m') =
        (if uses_hostnames l.protocol
          then note_hostname seen m l (lookup (hostname_or_empty l) seen)
          else (seen, m)) in
      check_hostnames seen' m' rest

  unfoldable pub check_port : ConditionsMap → List Listener → ConditionsMap
  unfolding conflict_all check_hostnames
  check_port m ls =
      if any (λ l. is_tcp_or_udp l.protocol) ls && any (λ l. uses_hostnames l.protocol) ls
      then conflict_all m ls
      else check_hostnames [] m ls

  unfoldable pub check_ports : ConditionsMap → List (ℕ × List Listener) → ConditionsMap
  unfolding check_port
  check_ports m [] = m
  check_ports m ((port, ls) ∷ rest) = check_ports (check_port m ls) rest

  abbrev pub is_conflicted : ConditionsMap → String → Bool
  is_conflicted m name = ops.is_status_condition_true (or_default [] (lookup name m)) "Conflicted"

  -- The last loop: listeners that do not conflict have their references resolved.
  unfoldable pub resolve_rest : ℕ → ConditionsMap → List Listener → ConditionsMap
  unfolding set_listener_condition lookup
  resolve_rest generation m [] = m
  resolve_rest generation m (l ∷ rest) =
      resolve_rest generation
        (if is_conflicted m l.name
          then m
          else set_listener_condition m l.name (resolved_refs generation))
        rest

  unfoldable pub validate_listeners :
      (List (ℕ × List Listener) → List (ℕ × List Listener)) → Gateway → ConditionsMap
  unfolding init_conditions group_by_port check_ports resolve_rest
  validate_listeners order gateway =
      let start = init_conditions [] gateway.listeners in
      let checked = check_ports start (order (group_by_port [] gateway.listeners)) in
      resolve_rest gateway.meta.generation checked gateway.listeners
