-- ===== src/Translator/Conflicts/Examples.antt =====
-- Witnesses for the conflicts between listeners.
use kube_agentic_networking.Common.{ℕ, ◌≡◌, ◌↔◌, true, [], ◌∷◌}
use kube_agentic_networking.Api.{Gateway, tcp}
use kube_agentic_networking.Translator.SampleConditions.{condition_ops}
use kube_agentic_networking.Translator.Samples.{web, front}
use kube_agentic_networking.Translator.Conflicts.{is_conflicted, validate_listeners}
use kube_agentic_networking.Translator.Conflicts.Ports.{
  on_port, InConflict, validate_listeners-InConflict,
}

-- A TCP listener on the port of an HTTP listener.
abbrev mixed : Gateway
mixed = record front { listeners = web ∷ record web { name = "raw"; protocol = tcp } ∷ [] }

validate_listeners-InConflict_example :
    (is_conflicted condition_ops (validate_listeners condition_ops (λ groups. groups) mixed) "web"
      ≡ true)
    ↔ ((port : ℕ) × InConflict (on_port port mixed.listeners) "web")
validate_listeners-InConflict_example =
    validate_listeners-InConflict condition_ops (λ groups. groups) (λ g gs. (λ i. i, λ i. i)) mixed
      "web"
