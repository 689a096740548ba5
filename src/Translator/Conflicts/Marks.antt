-- ===== src/Translator/Conflicts/Marks.antt =====
-- What the loops of validateListeners (pkg/translator/listener.go) mark as conflicted.
use kube_agentic_networking.Common.{
  ℕ, String, ◌≡◌, inl, inr, refl, ap, ◌∙◌, Bool, false, ◌||◌, Option, some, List, [], ◌∷◌, ◌==◌,
  arith, if◌then◌else◌, or_default, any, Bool-cases, lookup, insert, lookup-insert, string_eq,
  eq_iff,
}
use kube_agentic_networking.Api.{Condition, Listener}
use kube_agentic_networking.Translator.Conditions.{ConditionOps}
use kube_agentic_networking.Translator.Conflicts.{
  ConditionsMap, init_conditions, protocol_conflict, resolved_refs, set_listener_condition,
  conflict_all, is_conflicted, resolve_rest,
}

module _ (ops : ConditionOps) where
  abbrev marked : Option (List Condition) → Bool
  marked o = ops.is_status_condition_true (or_default [] o) "Conflicted"

  insert-conflicted :
      (m : ConditionsMap) (name x : String) (cs : List Condition)
      → is_conflicted ops (insert name cs m) x
        ≡ (if name == x then marked (some cs) else is_conflicted ops m x)
  insert-conflicted m name x cs =
      let e : lookup x (insert name cs m) ≡ (if name == x then some cs else lookup x m) =
        lookup-insert name x cs m in
      elim (Bool-cases (name == x)) [
        | inl t ↦ let f = rw t at e in rw t (ap marked f)
        | inr t ↦ let f = rw t at e in rw t (ap marked f)
      ]

  pub set-conflicted :
      (m : ConditionsMap) (name x : String) (c : Condition)
      → c.type ≡ "Conflicted"
      → c.status ≡ "True"
      → is_conflicted ops (set_listener_condition ops m name c) x
        ≡ (name == x || is_conflicted ops m x)
  unfolding set_listener_condition
  set-conflicted m name x c is_type is_true =
      insert-conflicted m name x (ops.set_status_condition (or_default [] (lookup name m)) c)
      ∙ (elim (Bool-cases (name == x)) [
        | inl e ↦ rw e (ops.is_true-set _ c "Conflicted" ∙ rw (is_type, is_true))
        | inr e ↦ rw e
      ])

  set-resolved :
      (m : ConditionsMap) (name x : String) (generation : ℕ)
      → is_conflicted ops (set_listener_condition ops m name (resolved_refs generation)) x
        ≡ is_conflicted ops m x
  unfolding set_listener_condition
  set-resolved m name x generation =
      insert-conflicted m name x
        (ops.set_status_condition (or_default [] (lookup name m)) (resolved_refs generation))
      ∙ (elim (Bool-cases (name == x)) [
        | inl e ↦ rw e (
            ops.is_true-set _ (resolved_refs generation) "Conflicted"
            ∙ ap (λ z. is_conflicted ops m z) ((eq_iff name x).0 e))
        | inr e ↦ rw e
      ])

  pub init-conflicted :
      (m : ConditionsMap) (ls : List Listener) (x : String)
      → is_conflicted ops m x ≡ false
      → is_conflicted ops (init_conditions m ls) x ≡ false
  unfolding init_conditions
  init-conflicted m [] x h = h
  init-conflicted m (l ∷ ls) x h = init-conflicted (insert l.name [] m) ls x (
      insert-conflicted m l.name x [] ∙ (elim (Bool-cases (l.name == x)) [
        | inl e ↦ rw e (ops.is_true-nil "Conflicted")
        | inr e ↦ rw e h
      ]))

  pub resolve-conflicted :
      (generation : ℕ) (m : ConditionsMap) (ls : List Listener) (x : String)
      → is_conflicted ops (resolve_rest ops generation m ls) x ≡ is_conflicted ops m x
  unfolding resolve_rest
  resolve-conflicted generation m [] x = refl
  resolve-conflicted generation m (l ∷ ls) x = elim (Bool-cases (is_conflicted ops m l.name)) [
    | inl e ↦ rw e (resolve-conflicted generation m ls x)
    | inr e ↦ rw e (
        resolve-conflicted generation
          (set_listener_condition ops m l.name (resolved_refs generation)) ls x
        ∙ set-resolved m l.name x generation)
  ]

  pub all-conflicted :
      (m : ConditionsMap) (ls : List Listener) (x : String)
      → is_conflicted ops (conflict_all ops m ls) x
        ≡ (any (λ l. l.name == x) ls || is_conflicted ops m x)
  unfolding conflict_all
  all-conflicted m [] x = refl
  all-conflicted m (l ∷ ls) x = ground (
    arith,
    all-conflicted (set_listener_condition ops m l.name protocol_conflict) ls x,
    set-conflicted m l.name x protocol_conflict refl refl,
  )
