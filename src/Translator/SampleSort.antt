-- ===== src/Translator/SampleSort.antt =====
-- A concrete instance of sort.Slice, for the witnesses: insertion sort.
use kube_agentic_networking.Common.{
  ◌≡◌, ◌↔◌, Bool, true, false, List, [], ◌∷◌, if◌then◌else◌, In, All-In, In-All, inl, inr,
  Bool-cases, sym,
}
use mathlib.Core.Path.{subst}
use kube_agentic_networking.Translator.Envoy.{EnvoyRoute}
use kube_agentic_networking.Translator.Matches.Order.{Sorted, IsSort}

insert_route : (EnvoyRoute → EnvoyRoute → Bool) → EnvoyRoute → List EnvoyRoute → List EnvoyRoute
insert_route less x [] = x ∷ []
insert_route less x (y ∷ ys) =
    let rest = insert_route less x ys in if less y x then y ∷ rest else x ∷ y ∷ ys

unfoldable pub insertion_sort : (EnvoyRoute → EnvoyRoute → Bool) → List EnvoyRoute → List EnvoyRoute
unfolding insert_route
insertion_sort less [] = []
insertion_sort less (x ∷ xs) = insert_route less x (insertion_sort less xs)

In-insert_route :
    (less : EnvoyRoute → EnvoyRoute → Bool) (z x : EnvoyRoute) (ys : List EnvoyRoute)
    → In z (insert_route less x ys) ↔ In z (x ∷ ys)
unfolding insert_route
In-insert_route less z x [] = (λ i. i, λ i. i)
In-insert_route less z x (y ∷ ys) = elim (Bool-cases (less y x)) [
  | inr e ↦ rw e (λ i. i, λ i. i)
  | inl e ↦
      let (a, b) = In-insert_route less z x ys in
      rw e (
        λ i. elim i [
          | inl q ↦ inr (inl q)
          | inr j ↦ elim (a j) [ inl q ↦ inl q | inr k ↦ inr (inr k) ]
        ],
        λ i. elim i [
          | inl q ↦ inr (b (inl q))
          | inr (inl q) ↦ inl q
          | inr (inr k) ↦ inr (b (inr k))
        ],
      )
]

In-insertion_sort :
    (less : EnvoyRoute → EnvoyRoute → Bool) (z : EnvoyRoute) (xs : List EnvoyRoute)
    → In z (insertion_sort less xs) ↔ In z xs
unfolding insertion_sort
In-insertion_sort less z [] = (λ i. i, λ i. i)
In-insertion_sort less z (x ∷ xs) =
    let (a, b) = In-insert_route less z x (insertion_sort less xs) in
    let (c, d) = In-insertion_sort less z xs in
    (
      λ i. elim (a i) [ inl q ↦ inl q | inr j ↦ inr (c j) ],
      λ i. b (elim i [ inl q ↦ inl q | inr j ↦ inr (d j) ]),
    )

abbrev StrictWeak : (EnvoyRoute → EnvoyRoute → Bool) → Type 0
StrictWeak less =
    (i j k : EnvoyRoute)
    → (less i i ≡ false)
      × (less i j ≡ true → less j i ≡ false)
      × (less i j ≡ false → less j k ≡ false → less i k ≡ false)

Sorted-insert_route :
    (less : EnvoyRoute → EnvoyRoute → Bool)
    → StrictWeak less
    → (x : EnvoyRoute) (ys : List EnvoyRoute) → Sorted less ys
    → Sorted less (insert_route less x ys)
unfolding insert_route
Sorted-insert_route less w x [] s = (tt, tt)
Sorted-insert_route less w x (y ∷ ys) (after, s) = elim (Bool-cases (less y x)) [
  | inr e ↦ rw e ((e, All-In _ ys (λ z i. (w z y x).2 (In-All _ ys z after i) e)), (after, s))
  | inl e ↦ rw e (
    All-In _ (insert_route less x ys) (λ z i. elim ((In-insert_route less z x ys).0 i) [
      | inl q ↦ subst (λ v. less v y ≡ false) (sym q) ((w y x x).1 e)
      | inr j ↦ In-All _ ys z after j
    ]),
    Sorted-insert_route less w x ys s,
  )
]

Sorted-insertion_sort :
    (less : EnvoyRoute → EnvoyRoute → Bool) (xs : List EnvoyRoute)
    → StrictWeak less
    → Sorted less (insertion_sort less xs)
unfolding insertion_sort
Sorted-insertion_sort less [] w = tt
Sorted-insertion_sort less (x ∷ xs) w =
    Sorted-insert_route less w x (insertion_sort less xs) (Sorted-insertion_sort less xs w)

pub insertion_sort-IsSort : IsSort insertion_sort
insertion_sort-IsSort = record {
  elements = λ less x xs. In-insertion_sort less x xs;
  sorted = Sorted-insertion_sort;
}
