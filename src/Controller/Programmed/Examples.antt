-- ===== src/Controller/Programmed/Examples.antt =====
-- A witness for the conditions of a Gateway.
use kube_agentic_networking.Common.{◌≡◌, ◌↔◌, String, true, Option, none, List, [], ◌∷◌, All}
use kube_agentic_networking.Api.{Condition}
use kube_agentic_networking.Translator.SampleConditions.{condition_ops}
use kube_agentic_networking.Controller.Programmed.{
  programmed, set_gateway_conditions, IsProgrammed, set_gateway_conditions-IsProgrammed,
}

abbrev one_listener : List (List Condition)
one_listener = (programmed 3 "True" "Programmed" "" ∷ []) ∷ []

abbrev no_error : Option String
no_error = none

set_gateway_conditions-IsProgrammed_example :
    (IsProgrammed condition_ops (set_gateway_conditions condition_ops 3 [] one_listener no_error)
      ↔ ((no_error ≡ none) × All (IsProgrammed condition_ops) one_listener))
    × (condition_ops.is_status_condition_true
          (set_gateway_conditions condition_ops 3 [] one_listener no_error)
          "Accepted"
        ≡ true)
set_gateway_conditions-IsProgrammed_example =
    set_gateway_conditions-IsProgrammed condition_ops 3 [] one_listener no_error
