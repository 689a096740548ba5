-- ===== src/Controller/Finalizers.antt =====
-- ensureFinalizer and removeFinalizer of pkg/controller/finalizers.go: the metadata afterwards, and
-- whether it changed. A nil list of finalizers behaves as an empty one.
use kube_agentic_networking.Common.{
  ◌≤◌, String, ◌≡◌, ◌≢◌, ◌↔◌, inl, inr, refl, sym, ap, Bool, true, false, not, List, [], ◌∷◌, ◌++◌,
  ◌==◌, eqb, eqb_iff, arith, if◌then◌else◌, any, any_iff, select, length, In, In-select, In-append,
  Bool-cases, eq_iff,
}
use kube_agentic_networking.Api.{ObjectMeta}

abbrev pub has_finalizer : String → ObjectMeta → Bool
has_finalizer finalizer m = any (λ f. f == finalizer) m.finalizers

unfoldable pub ensure_finalizer : ObjectMeta → String → ObjectMeta × Bool
ensure_finalizer m finalizer =
    if has_finalizer finalizer m
    then (m, false)
    else (record m { finalizers = m.finalizers ++ finalizer ∷ [] }, true)

abbrev pub without : String → List String → List String
without finalizer fs = select (λ f. not (f == finalizer)) fs

unfoldable pub remove_finalizer : ObjectMeta → String → ObjectMeta × Bool
remove_finalizer m finalizer =
    if eqb (length (without finalizer m.finalizers)) (length m.finalizers)
    then (m, false)
    else (record m { finalizers = without finalizer m.finalizers }, true)

without-length : (finalizer : String) (fs : List String) → length (without finalizer fs) ≤ length fs
without-length finalizer [] = omega arith
without-length finalizer (f ∷ fs) = ground (arith, without-length finalizer fs)

-- The lengths are equal exactly where the finalizer is missing, and then the list is as before.
without-same :
    (finalizer : String) (fs : List String)
    → (any (λ f. f == finalizer) fs ≡ false → without finalizer fs ≡ fs)
      × (length (without finalizer fs) ≡ length fs → any (λ f. f == finalizer) fs ≡ false)
without-same finalizer [] = (λ h. refl, λ h. refl)
without-same finalizer (f ∷ fs) =
    let (a, b) = without-same finalizer fs in
    elim (Bool-cases (f == finalizer)) [
      | inl e ↦
          rw e (λ h. absurd (cc), λ h. absurd (ground (arith, without-length finalizer fs, h)))
      | inr e ↦ rw e (λ h. ap (λ z. f ∷ z) (a h), λ h. b (ground (arith, h)))
    ]

without-removed :
    (finalizer : String) (fs : List String)
    → any (λ f. f == finalizer) (without finalizer fs) ≡ false
without-removed finalizer [] = refl
without-removed finalizer (f ∷ fs) = ground (arith, without-removed finalizer fs)

-- Removing a finalizer says that something changed exactly where it was there; afterwards it is not
-- there, and every other finalizer is there exactly where it was before.
pub remove_finalizer-removes :
    (m : ObjectMeta) (finalizer : String)
    → ((remove_finalizer m finalizer).1 ≡ has_finalizer finalizer m)
      × (has_finalizer finalizer (remove_finalizer m finalizer).0 ≡ false)
      × ((f : String)
          → f ≢ finalizer
          → In f (remove_finalizer m finalizer).0.finalizers ↔ In f m.finalizers)
unfolding remove_finalizer
remove_finalizer-removes m finalizer =
    let (a, b) = without-same finalizer m.finalizers in
    elim (Bool-cases (eqb (length (without finalizer m.finalizers)) (length m.finalizers))) [
      | inl e ↦
          let missing = b ((eqb_iff _ (length m.finalizers)).0 e) in
          rw e (sym missing, missing, λ f n. (λ i. i, λ i. i))
      | inr e ↦ rw e (
        sym (present e a),
        without-removed finalizer m.finalizers,
        λ f n. (
          λ i. ((In-select _ f m.finalizers).0 i).0,
          λ i. (In-select _ f m.finalizers).1 (i, kept f n),
        ),
      )
    ]
  where
    present :
        eqb (length (without finalizer m.finalizers)) (length m.finalizers) ≡ false
        → (has_finalizer finalizer m ≡ false → without finalizer m.finalizers ≡ m.finalizers)
        → has_finalizer finalizer m ≡ true
    present e a = elim (Bool-cases (has_finalizer finalizer m)) [
      | inl t ↦ t
      | inr t ↦
          let g =
            (eqb_iff (length (without finalizer m.finalizers)) (length m.finalizers)).1
              (ap length (a t)) in
          absurd (cc)
    ]

    kept : (f : String) → f ≢ finalizer → not (f == finalizer) ≡ true
    kept f n = elim (Bool-cases (f == finalizer)) [
      | inl t ↦ absurd (n ((eq_iff f finalizer).0 t))
      | inr t ↦ rw t
    ]

-- Ensuring a finalizer says that something changed exactly where it was missing; afterwards it is there,
-- and every other finalizer is there exactly where it was before.
pub ensure_finalizer-ensures :
    (m : ObjectMeta) (finalizer : String)
    → ((ensure_finalizer m finalizer).1 ≡ not (has_finalizer finalizer m))
      × (has_finalizer finalizer (ensure_finalizer m finalizer).0 ≡ true)
      × ((f : String)
          → f ≢ finalizer
          → In f (ensure_finalizer m finalizer).0.finalizers ↔ In f m.finalizers)
unfolding ensure_finalizer
ensure_finalizer-ensures m finalizer = elim (Bool-cases (has_finalizer finalizer m)) [
  | inl e ↦ rw e (refl, e, λ f n. (λ i. i, λ i. i))
  | inr e ↦ rw e (
    refl,
    (any_iff _ (m.finalizers ++ finalizer ∷ [])).1 (
      finalizer,
      (In-append finalizer m.finalizers (finalizer ∷ [])).1 (inr (inl refl)),
      (eq_iff finalizer finalizer).1 refl,
    ),
    λ f n. (
      λ i. elim ((In-append f m.finalizers (finalizer ∷ [])).0 i) [
        | inl j ↦ j
        | inr j ↦ elim j [ inl q ↦ absurd (n q) | inr k ↦ elim k [ ] ]
      ],
      λ i. (In-append f m.finalizers (finalizer ∷ [])).1 (inl i),
    ),
  )
]
