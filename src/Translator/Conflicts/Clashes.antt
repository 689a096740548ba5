-- ===== src/Translator/Conflicts/Clashes.antt =====
-- Which listeners of a Gateway are in conflict: validateListeners of pkg/translator/listener.go.
use mathlib.Core.Path.{subst}
use kube_agentic_networking.Common.{
  String, ◌≡◌, ◌↔◌, ◌⊎◌, inl, inr, refl, sym, ap, ◌∙◌, true, false, ◌||◌, none, some, List, [], ◌∷◌,
  ◌==◌, arith, if◌then◌else◌, Bool-cases, Option-cases, In, lookup, insert, lookup-insert,
  string_eq, nat_eq, eq_iff,
}
use kube_agentic_networking.Api.{Listener}
use kube_agentic_networking.Translator.Conditions.{ConditionOps}
use kube_agentic_networking.Translator.Conflicts.{
  ConditionsMap, uses_hostnames, hostname_or_empty, hostname_conflict, set_listener_condition,
  note_hostname, check_hostnames, is_conflicted,
}
use kube_agentic_networking.Translator.Conflicts.Marks.{set-conflicted}

-- `x` is the name of one of two listeners, at different places of the list, that use hostnames and have
-- the same one.
pub Twice : List Listener → String → Type 0
Twice [] x = ⊥
Twice (l ∷ ls) x =
    ((k : Listener) × In k ls
      × (uses_hostnames l.protocol ≡ true)
      × (uses_hostnames k.protocol ≡ true)
      × (hostname_or_empty l ≡ hostname_or_empty k)
      × ((l.name ≡ x) ⊎ (k.name ≡ x)))
    ⊎ Twice ls x

pub Twice-nil : (x : String) → Twice [] x → ⊥
unfolding Twice
Twice-nil x t = t

-- The hostname of a listener of the list was seen before, and `x` is the name of one of the two.
abbrev Again : List (String × String) → List Listener → String → Type 0
Again seen ls x =
    (k : Listener) × (first : String) × In k ls
    × (uses_hostnames k.protocol ≡ true)
    × (lookup (hostname_or_empty k) seen ≡ some first)
    × ((k.name ≡ x) ⊎ (first ≡ x))

module _ (ops : ConditionOps) where
  -- Both listeners of a clash are marked.
  clash-marked :
      (m : ConditionsMap) (l : Listener) (first x : String)
      → is_conflicted ops
          (set_listener_condition ops
            (set_listener_condition ops m l.name (hostname_conflict (hostname_or_empty l)))
            first
            (hostname_conflict (hostname_or_empty l)))
          x
        ≡ (first == x || (l.name == x || is_conflicted ops m x))
  clash-marked m l first x = ground (
    arith,
    set-conflicted ops
        (set_listener_condition ops m l.name (hostname_conflict (hostname_or_empty l))) first x
        (hostname_conflict (hostname_or_empty l)) refl refl,
    set-conflicted ops m l.name x (hostname_conflict (hostname_or_empty l)) refl refl,
  )

  abbrev Marks : List (String × String) → ConditionsMap → List Listener → String → Type 0
  Marks seen m ls x = (is_conflicted ops m x ≡ true) ⊎ (Again seen ls x ⊎ Twice ls x)

  -- A listener that uses no hostname changes nothing.
  Marks-unused :
      (seen : List (String × String)) (m : ConditionsMap) (l : Listener) (ls : List Listener)
      (x : String)
      → uses_hostnames l.protocol ≡ false
      → Marks seen m ls x ↔ Marks seen m (l ∷ ls) x
  unfolding Twice
  Marks-unused seen m l ls x u = (
    elim [
      | inl c ↦ inl c
      | inr (inl (k, first, i, v, e, n)) ↦ inr (inl (k, first, inr i, v, e, n))
      | inr (inr t) ↦ inr (inr (inr t))
    ],
    elim [
      | inl c ↦ inl c
      | inr (inl (k, first, i, v, e, n)) ↦ elim i [
        | inl same ↦ absurd (let g = subst (λ z. uses_hostnames z.protocol ≡ true) same v in cc)
        | inr j ↦ inr (inl (k, first, j, v, e, n))
      ]
      | inr (inr (inl (k, i, v, w, e, n))) ↦ absurd (cc (u, v))
      | inr (inr (inr t)) ↦ inr (inr t)
    ],
  )

  -- A hostname seen for the first time.
  Marks-first :
      (seen : List (String × String)) (m : ConditionsMap) (l : Listener) (ls : List Listener)
      (x : String)
      → uses_hostnames l.protocol ≡ true
      → lookup (hostname_or_empty l) seen ≡ none
      → Marks (insert (hostname_or_empty l) l.name seen) m ls x ↔ Marks seen m (l ∷ ls) x
  unfolding Twice
  Marks-first seen m l ls x u new = (
    elim [
      | inl c ↦ inl c
      | inr (inl (k, first, i, v, e, n)) ↦
          elim (Bool-cases (hostname_or_empty l == hostname_or_empty k)) [
            | inl same ↦
                let f = rw same at (
                  sym (lookup-insert (hostname_or_empty l) (hostname_or_empty k) l.name seen)
                  ∙ e) in
                let g : l.name ≡ first = cc in
                inr (
                  inr (
                    inl (
                      k,
                      i,
                      u,
                      v,
                      (eq_iff _ (hostname_or_empty k)).0 same,
                      elim n [ inl p ↦ inr p | inr p ↦ inl (g ∙ p) ],
                    )))
            | inr other ↦
                let f = rw other at (
                  sym (lookup-insert (hostname_or_empty l) (hostname_or_empty k) l.name seen)
                  ∙ e) in
                inr (inl (k, first, inr i, v, f, n))
          ]
      | inr (inr t) ↦ inr (inr (inr t))
    ],
    elim [
      | inl c ↦ inl c
      | inr (inl (k, first, i, v, e, n)) ↦ elim i [
        | inl same ↦
            absurd
              (let g = subst (λ z. lookup (hostname_or_empty z) seen ≡ some first) same e in cc)
        | inr j ↦ elim (Bool-cases (hostname_or_empty l == hostname_or_empty k)) [
          | inl same ↦ absurd (
              let g = (eq_iff _ (hostname_or_empty k)).0 same in
              let h = subst (λ z. lookup z seen ≡ none) g new in cc)
          | inr other ↦
              let f = lookup-insert (hostname_or_empty l) (hostname_or_empty k) l.name seen in
              inr (inl (k, first, j, v, rw other at f ∙ e, n))
        ]
      ]
      | inr (inr (inl (k, i, v, w, e, n))) ↦ inr (
          inl (
            k,
            l.name,
            i,
            w,
            lookup-insert (hostname_or_empty l) (hostname_or_empty k) l.name seen
                ∙ ap (λ b. if b then some l.name else lookup (hostname_or_empty k) seen)
                    ((eq_iff _ _).1 e),
            elim n [ inl p ↦ inr p | inr p ↦ inl p ],
          ))
      | inr (inr (inr t)) ↦ inr (inr t)
    ],
  )

  -- A hostname that was seen under the name `first`.
  Marks-again :
      (seen : List (String × String)) (m : ConditionsMap) (l : Listener) (first : String)
      (ls : List Listener) (x : String)
      → uses_hostnames l.protocol ≡ true
      → lookup (hostname_or_empty l) seen ≡ some first
      → Marks seen
          (set_listener_condition ops
            (set_listener_condition ops m l.name (hostname_conflict (hostname_or_empty l)))
            first
            (hostname_conflict (hostname_or_empty l)))
          ls
          x
        ↔ Marks seen m (l ∷ ls) x
  unfolding Twice
  Marks-again seen m l first ls x u known = (
    elim [
      | inl c ↦ from_marked (sym (clash-marked m l first x) ∙ c)
      | inr (inl (k, again, i, v, e, n)) ↦ inr (inl (k, again, inr i, v, e, n))
      | inr (inr t) ↦ inr (inr (inr t))
    ],
    elim [
      | inl c ↦ inl (clash-marked m l first x ∙ ground (arith, c))
      | inr (inl (k, again, i, v, e, n)) ↦ elim i [
        | inl same ↦
            let g = subst (λ z. lookup (hostname_or_empty z) seen ≡ some again) same e in
            let h : first ≡ again = cc in
            inl (
              clash-marked m l first x ∙ (elim n [
                | inl p ↦ ground (arith, (eq_iff l.name x).1 (ap (λ z. z.name) (sym same) ∙ p))
                | inr p ↦ ground (arith, (eq_iff first x).1 (h ∙ p))
              ]))
        | inr j ↦ inr (inl (k, again, j, v, e, n))
      ]
      | inr (inr (inl (k, i, v, w, e, n))) ↦ elim n [
        | inl p ↦ inl (clash-marked m l first x ∙ ground (arith, (eq_iff l.name x).1 p))
        | inr p ↦ inr (inl (k, first, i, w, subst (λ z. lookup z seen ≡ some first) e known, inl p))
      ]
      | inr (inr (inr t)) ↦ inr (inr t)
    ],
  )
    where
      from_marked :
          (first == x || (l.name == x || is_conflicted ops m x)) ≡ true → Marks seen m (l ∷ ls) x
      from_marked c = elim (Bool-cases (first == x)) [
        | inl e ↦ inr (inl (l, first, inl refl, u, known, inr ((eq_iff first x).0 e)))
        | inr e ↦ elim (Bool-cases (l.name == x)) [
          | inl f ↦ inr (inl (l, first, inl refl, u, known, inl ((eq_iff l.name x).0 f)))
          | inr f ↦ inl (ground arith)
        ]
      ]

  check_hostnames-Marks :
      (seen : List (String × String)) (m : ConditionsMap) (ls : List Listener) (x : String)
      → (is_conflicted ops (check_hostnames ops seen m ls) x ≡ true) ↔ Marks seen m ls x
  unfolding check_hostnames note_hostname
  check_hostnames-Marks seen m [] x = (
    λ c. inl c,
    elim [ inl c ↦ c | inr (inl a) ↦ elim a.2 [ ] | inr (inr t) ↦ absurd (Twice-nil x t) ],
  )
  check_hostnames-Marks seen m (l ∷ ls) x = elim (Bool-cases (uses_hostnames l.protocol)) [
    | inr u ↦
        let (a, b) = check_hostnames-Marks seen m ls x in
        let (c, d) = Marks-unused seen m l ls x u in rw u (λ h. c (a h), λ h. b (d h))
    | inl u ↦ elim (Option-cases (lookup (hostname_or_empty l) seen)) [
      | inl e ↦
          let (a, b) = check_hostnames-Marks (insert (hostname_or_empty l) l.name seen) m ls x in
          let (c, d) = Marks-first seen m l ls x u e in rw (u, e) (λ h. c (a h), λ h. b (d h))
      | inr (first, e) ↦
          let both =
            set_listener_condition ops
              (set_listener_condition ops m l.name (hostname_conflict (hostname_or_empty l))) first
              (hostname_conflict (hostname_or_empty l)) in
          let (a, b) = check_hostnames-Marks seen both ls x in
          let (c, d) = Marks-again seen m l first ls x u e in rw (u, e) (λ h. c (a h), λ h. b (d h))
    ]
  ]

  pub check_hostnames-Twice :
      (m : ConditionsMap) (ls : List Listener) (x : String)
      → (is_conflicted ops (check_hostnames ops [] m ls) x ≡ true)
        ↔ ((is_conflicted ops m x ≡ true) ⊎ Twice ls x)
  unfolding lookup
  check_hostnames-Twice m ls x =
      let (a, b) = check_hostnames-Marks [] m ls x in
      (
        λ h. elim (a h) [
          | inl c ↦ inl c
          | inr (inl (k, first, i, v, e, n)) ↦ absurd (cc)
          | inr (inr t) ↦ inr t
        ],
        λ h. b (elim h [ inl c ↦ inl c | inr t ↦ inr (inr t) ]),
      )
