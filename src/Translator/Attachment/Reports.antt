-- ===== src/Translator/Attachment/Reports.antt =====
-- What the conditions that validateHTTPRoute reports say.
use kube_agentic_networking.Translator.Attachment.Statuses.{
  scan_listeners-select, validate_refs-parents, attaches,
}
use mathlib.Core.Path.{subst}
use kube_agentic_networking.Common.{
  In-All, sym, false, All, eq_iff, string_eq, String, ◌≡◌, refl, ◌↔◌, inl, inr, Bool, true, List,
  [], ◌∷◌, map, Bool-cases, In, select, string_eq, In-select,
}
use kube_agentic_networking.Api.{Condition, Gateway, Listener, HttpRoute, ParentReference}
use kube_agentic_networking.Translator.Env.{Translator}
use kube_agentic_networking.Translator.Attachment.{
  unresolved_condition, RouteParentStatus, validate_http_route, accepted_condition, ref_status,
  targets, accept_all, scan_listeners, validate_refs,
}

-- What a status says of its reference.
pub record Reports (t : Translator) (gateway : Gateway) (route : HttpRoute) (s : RouteParentStatus)
    : Type 0 where
  pub accepted : Condition
  pub others : List Condition
  pub first : s.conditions ≡ accepted ∷ others
  pub is_accepted : accepted.type ≡ "Accepted"
  pub true_iff :
      (accepted.status ≡ "True")
      ↔ ((l : Listener) × In l gateway.listeners × (attaches t gateway route s.parent_ref l ≡ true))
  pub false_iff :
      (accepted.status ≡ "False")
      ↔ All (λ l. attaches t gateway route s.parent_ref l ≡ false) gateway.listeners

select-nil :
    (p : Listener → Bool) (ls : List Listener) → select p ls ≡ [] → All (λ l. p l ≡ false) ls
select-nil p [] e = tt
select-nil p (l ∷ ls) e = elim (Bool-cases (p l)) [
  | inl h ↦ let f = rw h at e in absurd (cc)
  | inr h ↦ (h, select-nil p ls (rw h at e))
]

module _ (t : Translator) (gateway : Gateway) (route : HttpRoute) (ref : ParentReference) where
  abbrev chosen : List Listener
  chosen = select (attaches t gateway route ref) gateway.listeners

  chosen-Reports :
      (ls : List Listener) (reason : String)
      → ls ≡ chosen
      → Reports t gateway route (ref_status route ref (ls, reason))
  unfolding ref_status
  chosen-Reports [] reason e = record {
    accepted = accepted_condition route [] reason;
    others = unresolved_condition route ∷ [];
    first = refl;
    is_accepted = unfold accepted_condition in refl;
    true_iff =
        unfold accepted_condition in
        (
          λ s. absurd (let f = (eq_iff "False" "True").1 s in cc),
          λ (l, i, a). absurd (Nothing l ((In-select _ l _).1 (i, a))),
        );
    false_iff =
        unfold accepted_condition in (λ s. select-nil _ gateway.listeners (sym e), λ h. refl);
  }
    where
      Nothing : (l : Listener) → In l chosen → ⊥
      Nothing l i = let j : In l [] = subst (In l) (sym e) i in elim j [ ]
  chosen-Reports (x ∷ ls) reason e = record {
    accepted = accepted_condition route (x ∷ ls) reason;
    others = unresolved_condition route ∷ [];
    first = refl;
    is_accepted = unfold accepted_condition in refl;
    true_iff = unfold accepted_condition in (λ s. (x, there.0, there.1), λ h. refl);
    false_iff =
        unfold accepted_condition in
        (
          λ s. absurd (let f = (eq_iff "True" "False").1 s in cc),
          λ h. absurd (let f = In-All _ gateway.listeners x h there.0 in cc (there.1)),
        );
  }
    where
      there : In x gateway.listeners × (attaches t gateway route ref x ≡ true)
      there = (In-select _ x _).0 (subst (In x) e (inl refl))

refs-Report :
    (t : Translator) (gateway : Gateway) (route : HttpRoute) (m : List (String × Listener))
    (refs : List ParentReference)
    → All (Reports t gateway route) (validate_refs t gateway route m refs).0
unfolding validate_refs
refs-Report t gateway route m [] = tt
refs-Report t gateway route m (ref ∷ refs) = elim (Bool-cases (targets gateway route ref)) [
  | inl e ↦
      let found = scan_listeners t gateway route ref "NoMatchingParent" gateway.listeners in
      rw e (
        chosen-Reports t gateway route ref found.0 found.1
            (scan_listeners-select t gateway route ref "NoMatchingParent" gateway.listeners),
        refs-Report t gateway route (accept_all found.0 m) refs,
      )
  | inr e ↦ rw e (refs-Report t gateway route m refs)
]

-- Every status that a route gets for a Gateway has the condition `Accepted` first: "True" where some
-- listener of the Gateway accepts the route through the status's reference, and "False" where none
-- does; and there is one status for each reference to the Gateway, in order.
pub validate_http_route-Reports :
    (t : Translator) (order : List Listener → List Listener) (gateway : Gateway) (route : HttpRoute)
    → (map (λ s. s.parent_ref) (validate_http_route t order gateway route).0
        ≡ select (targets gateway route) route.parent_refs)
      × All (Reports t gateway route) (validate_http_route t order gateway route).0
unfolding validate_http_route
validate_http_route-Reports t order gateway route = (
  validate_refs-parents t gateway route [] route.parent_refs,
  refs-Report t gateway route [] route.parent_refs,
)
