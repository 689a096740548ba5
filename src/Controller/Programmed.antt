-- ===== src/Controller/Programmed.antt =====
-- The conditions of a Gateway: setGatewayConditions of pkg/controller/gateway.go. Of a listener's status
-- its conditions are read.
mod Examples
use kube_agentic_networking.Common.{
  ℕ, ◌≤◌, suc, String, ◌≡◌, ◌↔◌, refl, sym, ◌∙◌, inl, inr, Bool, true, false, Option, none, some,
  List, [], ◌∷◌, ◌==◌, eqb, eqb_iff, arith, if◌then◌else◌, length, concat, decimal, All, Bool-cases,
  eq_iff,
}
use kube_agentic_networking.Api.{Condition}
use kube_agentic_networking.Translator.Conditions.{ConditionOps}

abbrev pub programmed : ℕ → String → String → String → Condition
programmed generation status reason message = record {
  type = "Programmed";
  status = status;
  reason = reason;
  message = message;
  observed_generation = generation;
}

abbrev pub gateway_accepted : ℕ → Condition
gateway_accepted generation = record {
  type = "Accepted";
  status = "True";
  reason = "Accepted";
  message = "Gateway is accepted";
  observed_generation = generation;
}

module _ (ops : ConditionOps) where
  -- listenersProgrammed after the loop
  unfoldable pub listeners_programmed : List (List Condition) → ℕ
  listeners_programmed [] = 0
  listeners_programmed (cs ∷ rest) =
      let later = listeners_programmed rest in
      if ops.is_status_condition_true cs "Programmed" then suc later else later

  abbrev pub programmed_count : ℕ → ℕ → ℕ → Condition
  programmed_count generation n total =
      if eqb n total
      then programmed generation "True" "Programmed" "Envoy configuration updated successfully"
      else programmed generation "False" "ListenersNotProgrammed" (
          concat
            (decimal n ∷ " out of " ∷ decimal total ∷ " listeners failed to be programmed" ∷ []))

  unfoldable pub programmed_condition : ℕ → List (List Condition) → Option String → Condition
  unfolding listeners_programmed decimal
  programmed_condition generation statuses (some msg) =
      programmed generation "False" "ReconciliationError"
        (concat ("Failed to program envoy config: " ∷ msg ∷ []))
  programmed_condition generation statuses none =
      programmed_count generation (listeners_programmed statuses) (length statuses)

  unfoldable pub set_gateway_conditions :
      ℕ → List Condition → List (List Condition) → Option String → List Condition
  unfolding programmed_condition
  set_gateway_conditions generation conditions statuses err =
      ops.set_status_condition
        (ops.set_status_condition conditions (programmed_condition generation statuses err))
        (gateway_accepted generation)

  abbrev pub IsProgrammed : List Condition → Type 0
  IsProgrammed cs = ops.is_status_condition_true cs "Programmed" ≡ true

  programmed-bound :
      (statuses : List (List Condition)) → listeners_programmed statuses ≤ length statuses
  unfolding listeners_programmed
  programmed-bound [] = omega arith
  programmed-bound (cs ∷ rest) = ground (arith, programmed-bound rest)

  All-IsProgrammed :
      (statuses : List (List Condition))
      → (listeners_programmed statuses ≡ length statuses) ↔ All IsProgrammed statuses
  unfolding listeners_programmed
  All-IsProgrammed [] = (λ h. tt, λ h. refl)
  All-IsProgrammed (cs ∷ rest) =
      let (a, b) = All-IsProgrammed rest in
      elim (Bool-cases (ops.is_status_condition_true cs "Programmed")) [
        | inl e ↦ rw e (λ h. (refl, a (ground (arith, h))), λ h. ground (arith, b h.1))
        | inr e ↦
            rw e (λ h. absurd (ground (arith, programmed-bound rest, h)), λ h. absurd (cc (h.0)))
      ]

  status-IsProgrammed :
      (generation : ℕ) (statuses : List (List Condition)) (err : Option String)
      → ((programmed_condition generation statuses err).status == "True") ≡ true
        ↔ ((err ≡ none) × All IsProgrammed statuses)
  unfolding programmed_condition
  status-IsProgrammed generation statuses (some msg) = (λ h. absurd (cc), λ h. absurd (cc (h.0)))
  status-IsProgrammed generation statuses none =
      let (a, b) = All-IsProgrammed statuses in
      elim (Bool-cases (eqb (listeners_programmed statuses) (length statuses))) [
        | inl e ↦ rw e (λ h. (refl, a ((eqb_iff _ (length statuses)).0 e)), λ h. refl)
        | inr e ↦
            rw e (
              λ h. absurd (cc),
              λ h. absurd (let g = (eqb_iff _ (length statuses)).1 (b h.1) in cc),
            )
      ]

  type-programmed :
      (generation : ℕ) (statuses : List (List Condition)) (err : Option String)
      → (programmed_condition generation statuses err).type ≡ "Programmed"
  unfolding programmed_condition
  type-programmed generation statuses (some msg) = refl
  type-programmed generation statuses none =
      elim (Bool-cases (eqb (listeners_programmed statuses) (length statuses))) [
        | inl e ↦ rw e
        | inr e ↦ rw e
      ]

  -- The Gateway's condition Programmed is "True" exactly where the update of Envoy gave no error and every
  -- listener's status has Programmed "True"; the condition Accepted is "True" in any case.
  pub set_gateway_conditions-IsProgrammed :
      (generation : ℕ) (conditions : List Condition) (statuses : List (List Condition))
      (err : Option String)
      → (IsProgrammed (set_gateway_conditions generation conditions statuses err)
          ↔ ((err ≡ none) × All IsProgrammed statuses))
        × (ops.is_status_condition_true
              (set_gateway_conditions generation conditions statuses err)
              "Accepted"
            ≡ true)
  unfolding set_gateway_conditions
  set_gateway_conditions-IsProgrammed generation conditions statuses err =
      let c = programmed_condition generation statuses err in
      let first =
        ops.is_true-set (ops.set_status_condition conditions c) (gateway_accepted generation)
          "Programmed" in
      let second = ops.is_true-set conditions c "Programmed" in
      let both : ops.is_status_condition_true
            (set_gateway_conditions generation conditions statuses err) "Programmed"
          ≡ (c.status == "True") =
        first ∙ second ∙ rw (type-programmed generation statuses err) in
      let (a, b) = status-IsProgrammed generation statuses err in
      (
        (λ h. a (sym both ∙ h), λ h. both ∙ b h),
        ops.is_true-set (ops.set_status_condition conditions c) (gateway_accepted generation)
            "Accepted",
      )
