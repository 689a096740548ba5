-- ===== src/Translator/Conflicts/Ports.antt =====
-- The conflicts of all ports of a Gateway: validateListeners of pkg/translator/listener.go.
use mathlib.Core.Path.{subst}
use kube_agentic_networking.Common.{
  ℕ, String, ◌≡◌, ◌≢◌, ◌↔◌, ◌⊎◌, inl, inr, refl, sym, ap, ◌∙◌, Bool, true, false, ◌&&◌, some, List,
  [], ◌∷◌, ◌++◌, ◌==◌, arith, if◌then◌else◌, or_default, any, any_iff, select, Bool-cases,
  Option-cases, In, lookup, insert, lookup-insert, string_eq, nat_eq, eq_iff, eqb, eqb_iff, Unique,
  insert-Unique, In-lookup, lookup-In,
}
use mathlib.Core.List.{append-nil, append_assoc}
use kube_agentic_networking.Api.{Listener, Gateway}
use kube_agentic_networking.Translator.Conditions.{ConditionOps}
use kube_agentic_networking.Translator.Conflicts.{
  ConditionsMap, uses_hostnames, is_tcp_or_udp, group_by_port, init_conditions, check_port,
  check_ports, is_conflicted, resolve_rest, validate_listeners,
}
use kube_agentic_networking.Translator.Conflicts.Marks.{
  all-conflicted, resolve-conflicted, init-conflicted,
}
use kube_agentic_networking.Translator.Conflicts.Clashes.{Twice, Twice-nil, check_hostnames-Twice}

-- The listeners of a port, in order.
abbrev pub on_port : ℕ → List Listener → List Listener
on_port port ls = select (λ l. eqb l.port port) ls

abbrev pub is_mixed : List Listener → Bool
is_mixed ls = any (λ l. is_tcp_or_udp l.protocol) ls && any (λ l. uses_hostnames l.protocol) ls

-- `x` is the name of a listener in conflict on the port: any of them where TCP or UDP listeners are mixed
-- with HTTP, HTTPS or TLS listeners, and one of two with the same hostname otherwise.
abbrev pub InConflict : List Listener → String → Type 0
InConflict ls x =
    ((is_mixed ls ≡ true) × (l : Listener) × In l ls × (l.name ≡ x))
    ⊎ ((is_mixed ls ≡ false) × Twice ls x)

group_by_port-lookup :
    (groups : List (ℕ × List Listener)) (ls : List Listener) (port : ℕ)
    → or_default [] (lookup port (group_by_port groups ls))
      ≡ or_default [] (lookup port groups) ++ on_port port ls
unfolding group_by_port
group_by_port-lookup groups [] port = sym (append-nil (or_default [] (lookup port groups)))
group_by_port-lookup groups (l ∷ ls) port =
    let new = or_default [] (lookup l.port groups) ++ l ∷ [] in
    let rest = group_by_port-lookup (insert l.port new groups) ls port in
    let e : lookup port (insert l.port new groups)
        ≡ (if eqb l.port port then some new else lookup port groups) =
      lookup-insert l.port port new groups in
    elim (Bool-cases (eqb l.port port)) [
      | inr t ↦ rw t (rest ∙ ap (λ o. or_default [] o ++ on_port port ls) (rw t at e))
      | inl t ↦
          let here : lookup l.port groups ≡ lookup port groups =
            ap (λ p. lookup p groups) ((eqb_iff l.port port).0 t) in
          rw t (
            rest
            ∙ ap (λ o. or_default [] o ++ on_port port ls) (rw t at e)
            ∙ append_assoc (or_default [] (lookup l.port groups)) (l ∷ []) (on_port port ls)
            ∙ ap (λ o. or_default [] o ++ l ∷ on_port port ls) here)
    ]

group_by_port-Unique :
    (groups : List (ℕ × List Listener)) (ls : List Listener)
    → Unique groups
    → Unique (group_by_port groups ls)
unfolding group_by_port
group_by_port-Unique groups [] u = u
group_by_port-Unique groups (l ∷ ls) u =
    group_by_port-Unique (insert l.port (or_default [] (lookup l.port groups) ++ l ∷ []) groups) ls
      (insert-Unique l.port (or_default [] (lookup l.port groups) ++ l ∷ []) groups u)

module _ (ops : ConditionOps) where
  check_port-InConflict :
      (m : ConditionsMap) (ls : List Listener) (x : String)
      → (is_conflicted ops (check_port ops m ls) x ≡ true)
        ↔ ((is_conflicted ops m x ≡ true) ⊎ InConflict ls x)
  unfolding check_port
  check_port-InConflict m ls x = elim (Bool-cases (is_mixed ls)) [
    | inl e ↦ rw e (
      λ h. elim (Bool-cases (is_conflicted ops m x)) [
        | inl c ↦ inl c
        | inr c ↦
            let (l, i, n) =
              (any_iff (λ l. l.name == x) ls).0 (ground (arith, all-conflicted ops m ls x)) in
            inr (inl (refl, l, i, (eq_iff l.name x).0 n))
      ],
      elim [
        | inl c ↦ all-conflicted ops m ls x ∙ ground (arith, c)
        | inr (inl (t, l, i, n)) ↦
            let g = (any_iff (λ l. l.name == x) ls).1 (l, i, (eq_iff l.name x).1 n) in
            all-conflicted ops m ls x ∙ ground (arith, g)
        | inr (inr (t, w)) ↦ absurd (cc)
      ],
    )
    | inr e ↦
        let (a, b) = check_hostnames-Twice ops m ls x in
        rw e (
          λ h. elim (a h) [ inl c ↦ inl c | inr t ↦ inr (inr (refl, t)) ],
          elim [
            | inl c ↦ b (inl c)
            | inr (inl (t, l, i, n)) ↦ absurd (cc)
            | inr (inr (t, w)) ↦ b (inr w)
          ],
        )
  ]

  check_ports-InConflict :
      (m : ConditionsMap) (groups : List (ℕ × List Listener)) (x : String)
      → (is_conflicted ops (check_ports ops m groups) x ≡ true) ↔ (
          (is_conflicted ops m x ≡ true)
          ⊎ ((port : ℕ) × (ls : List Listener) × In (port, ls) groups × InConflict ls x))
  unfolding check_ports
  check_ports-InConflict m [] x = (λ c. inl c, elim [ inl c ↦ c | inr a ↦ elim a.2 [ ] ])
  check_ports-InConflict m ((port, ls) ∷ groups) x =
      let (a, b) = check_ports-InConflict (check_port ops m ls) groups x in
      let (c, d) = check_port-InConflict m ls x in
      (
        λ h. elim (a h) [
          | inl k ↦ elim (c k) [ inl y ↦ inl y | inr y ↦ inr (port, ls, inl refl, y) ]
          | inr (p, js, i, y) ↦ inr (p, js, inr i, y)
        ],
        λ h. b (elim h [
          | inl y ↦ inl (d (inl y))
          | inr (p, js, i, y) ↦ elim i [
            | inl same ↦ inl (d (inr (subst (λ z. InConflict z x) (ap (λ z. z.1) same) y)))
            | inr j ↦ inr (p, js, j, y)
          ]
        ]),
      )

group-on_port :
    (all : List Listener) (port : ℕ) (ls : List Listener)
    → In (port, ls) (group_by_port [] all)
    → ls ≡ on_port port all
unfolding lookup
group-on_port all port ls i =
    let e = In-lookup port ls (group_by_port [] all) (group_by_port-Unique [] all tt) i in
    sym (ap (or_default []) e) ∙ group_by_port-lookup [] all port

on_port-group :
    (all : List Listener) (port : ℕ)
    → on_port port all ≢ []
    → In (port, on_port port all) (group_by_port [] all)
unfolding lookup
on_port-group all port some_left = elim (Option-cases (lookup port (group_by_port [] all))) [
  | inl e ↦ absurd (some_left (sym (group_by_port-lookup [] all port) ∙ ap (or_default []) e))
  | inr (ls, e) ↦
      let i = lookup-In port ls (group_by_port [] all) e in
      subst (λ z. In (port, z) (group_by_port [] all)) (group-on_port all port ls i) i
]

InConflict-nil : (x : String) → InConflict [] x → ⊥
InConflict-nil x (inl (t, l, i, n)) = elim i [ ]
InConflict-nil x (inr (t, w)) = Twice-nil x w

-- The condition Conflicted of a listener's name is "True" exactly where, on some port, a listener
-- of that name is mixed with others of the other kind of protocol, or the port is not mixed and
-- the listener and another use hostnames and have the same one; the order in which the ports are
-- visited has no effect.
pub validate_listeners-InConflict :
    (ops : ConditionOps) (order : List (ℕ × List Listener) → List (ℕ × List Listener))
    → ((g : ℕ × List Listener) (gs : List (ℕ × List Listener)) → In g (order gs) ↔ In g gs)
    → (gateway : Gateway) (x : String)
    → (is_conflicted ops (validate_listeners ops order gateway) x ≡ true)
      ↔ ((port : ℕ) × InConflict (on_port port gateway.listeners) x)
unfolding validate_listeners
validate_listeners-InConflict ops order perm gateway x = (
  λ h. elim (a (sym same ∙ h)) [
    | inl c ↦ absurd (cc (c, clean))
    | inr (port, ls, i, y) ↦ (
      port,
      subst (λ z. InConflict z x)
          (group-on_port gateway.listeners port ls ((perm (port, ls) _).0 i)) y,
    )
  ],
  λ (port, y). same ∙ b (inr (there port y)),
)
  where
    start : ConditionsMap
    start = init_conditions [] gateway.listeners

    groups : List (ℕ × List Listener)
    groups = group_by_port [] gateway.listeners

    clean : is_conflicted ops start x ≡ false
    clean = init-conflicted ops [] gateway.listeners x (ops.is_true-nil "Conflicted")

    same :
        is_conflicted ops
          (resolve_rest ops gateway.meta.generation
            (check_ports ops start (order groups))
            gateway.listeners)
          x
        ≡ is_conflicted ops (check_ports ops start (order groups)) x
    same =
        resolve-conflicted ops gateway.meta.generation (check_ports ops start (order groups))
          gateway.listeners x

    a :
        is_conflicted ops (check_ports ops start (order groups)) x ≡ true
        → (is_conflicted ops start x ≡ true)
          ⊎ ((port : ℕ) × (ls : List Listener) × In (port, ls) (order groups) × InConflict ls x)
    a = (check_ports-InConflict ops start (order groups) x).0

    b :
        ((is_conflicted ops start x ≡ true)
          ⊎ ((port : ℕ) × (ls : List Listener) × In (port, ls) (order groups) × InConflict ls x))
        → is_conflicted ops (check_ports ops start (order groups)) x ≡ true
    b = (check_ports-InConflict ops start (order groups) x).1

    there :
        (port : ℕ)
        → InConflict (on_port port gateway.listeners) x
        → (p : ℕ) × (ls : List Listener) × In (p, ls) (order groups) × InConflict ls x
    there port y = (
      port,
      on_port port gateway.listeners,
      (perm (port, on_port port gateway.listeners) groups).1 (
          on_port-group gateway.listeners port
            (λ e. InConflict-nil x (subst (λ z. InConflict z x) e y))),
      y,
    )
