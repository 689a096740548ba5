-- ===== src/Common/Lists.antt =====
-- Lists measured by native numbers, the loops that the program writes over slices, and membership.
use Prim.Native.Nat.{ℕ, suc, ◌+◌}
use mathlib.Core.Path.{◌≡◌, refl, sym, subst}
use mathlib.Core.Logic.{◌↔◌, ◌⊎◌, inl, inr}
use mathlib.Core.Bool.{Bool, true, false, ◌||◌}
use mathlib.Core.List.{map, List, [], ◌∷◌, ◌++◌}
use native.Mathlib.Omega.{arith}
use kube_agentic_networking.Common.Bools.{if◌then◌else◌, Bool-cases}

module _ {ℓ} {A : Type ℓ} where
  abbrev pub length : List A → ℕ
  length [] = 0
  length (x ∷ xs) = suc (length xs)

  abbrev pub is_empty : List A → Bool
  is_empty [] = true
  is_empty (x ∷ xs) = false

  abbrev pub any : (A → Bool) → List A → Bool
  any p [] = false
  any p (x ∷ xs) = p x || any p xs

  abbrev pub select : (A → Bool) → List A → List A
  select p [] = []
  select p (x ∷ xs) = let rest = select p xs in if p x then x ∷ rest else rest

  pub length-append : (xs ys : List A) → length (xs ++ ys) ≡ length xs + length ys
  length-append [] ys = omega arith
  length-append (x ∷ xs) ys = omega (arith, length-append xs ys)

-- The empty type at any level.
pub data Nowhere {ℓ} : Type ℓ where

module _ {ℓ} {A : Type ℓ} where
  -- `x` is an element of the list.
  abbrev pub In : A → List A → Type ℓ
  In x [] = Nowhere
  In x (y ∷ ys) = (x ≡ y) ⊎ In x ys

  pub In-append : (x : A) (xs ys : List A) → In x (xs ++ ys) ↔ (In x xs ⊎ In x ys)
  In-append x [] ys = (λ h. inr h, elim [ inl h ↦ elim h [ ] | inr h ↦ h ])
  In-append x (y ∷ xs) ys = (
    elim [
      | inl e ↦ inl (inl e)
      | inr h ↦ elim ((In-append x xs ys).0 h) [ inl a ↦ inl (inr a) | inr b ↦ inr b ]
    ],
    elim [
      | inl (inl e) ↦ inl e
      | inl (inr h) ↦ inr ((In-append x xs ys).1 (inl h))
      | inr h ↦ inr ((In-append x xs ys).1 (inr h))
    ],
  )

  pub any_iff :
      (p : A → Bool) (xs : List A) → (any p xs ≡ true) ↔ ((x : A) × In x xs × (p x ≡ true))
  any_iff p [] = (λ e. cc, λ h. elim h.1 [ ])
  any_iff p (y ∷ xs) = (any_to p y xs (any_iff p xs).0, any_from p y xs (any_iff p xs).1)
    where
      any_to :
          (p : A → Bool) (y : A) (xs : List A)
          → (any p xs ≡ true → (x : A) × In x xs × (p x ≡ true))
          → any p (y ∷ xs) ≡ true
          → (x : A) × In x (y ∷ xs) × (p x ≡ true)
      any_to p y xs ih e = elim (Bool-cases (p y)) [
        | inl t ↦ (y, inl refl, t)
        | inr f ↦ let (x, i, t) = ih (rw f at e) in (x, inr i, t)
      ]

      any_from :
          (p : A → Bool) (y : A) (xs : List A)
          → (((x : A) × In x xs × (p x ≡ true)) → any p xs ≡ true)
          → ((x : A) × In x (y ∷ xs) × (p x ≡ true))
          → any p (y ∷ xs) ≡ true
      any_from p y xs ih (x, inl e, t) = rw (← e, t)
      any_from p y xs ih (x, inr i, t) = ground (arith, ih (x, i, t))

module _ {ℓ} {A : Type ℓ} where
  pub In-select :
      (p : A → Bool) (x : A) (xs : List A) → In x (select p xs) ↔ (In x xs × (p x ≡ true))
  In-select p x [] = (λ i. elim i [ ], λ i. elim i.0 [ ])
  In-select p x (y ∷ ys) = elim (Bool-cases (p y)) [
    | inl t ↦ rw t (
      elim [
        | inl e ↦ (inl e, subst (λ z. p z ≡ true) (sym e) t)
        | inr i ↦ let (j, q) = (In-select p x ys).0 i in (inr j, q)
      ],
      λ (i, q). elim i [ inl e ↦ inl e | inr j ↦ inr ((In-select p x ys).1 (j, q)) ],
    )
    | inr f ↦ rw f (
      λ i. let (j, q) = (In-select p x ys).0 i in (inr j, q),
      λ (i, q). elim i [
        | inl e ↦ let g = subst (λ z. p z ≡ true) e q in absurd (cc)
        | inr j ↦ (In-select p x ys).1 (j, q)
      ],
    )
  ]

module _ {ℓ κ} {A : Type ℓ} where
  abbrev pub All : (A → Type κ) → List A → Type κ
  All P [] = Unit
  All P (x ∷ xs) = P x × All P xs

  pub All-In : (P : A → Type κ) (xs : List A) → ((x : A) → In x xs → P x) → All P xs
  All-In P [] h = tt
  All-In P (x ∷ xs) h = (h x (inl refl), All-In P xs (λ y i. h y (inr i)))

  pub In-All : (P : A → Type κ) (xs : List A) (x : A) → All P xs → In x xs → P x
  In-All P [] x h i = elim i [ ]
  In-All P (y ∷ xs) x h (inl e) = subst P (sym e) h.0
  In-All P (y ∷ xs) x h (inr i) = In-All P xs x h.1 i

pub In-map {ℓ κ} :
    {A : Type ℓ} {B : Type κ} (f : A → B) (y : B) (xs : List A)
    → In y (map f xs)
    → (x : A) × In x xs × (y ≡ f x)
In-map f y [] i = elim i [ ]
In-map f y (x ∷ xs) (inl e) = (x, inl refl, e)
In-map f y (x ∷ xs) (inr i) = let (z, j, e) = In-map f y xs i in (z, inr j, e)

-- An order of iteration gives the elements, each and no others.
abbrev pub IsOrder {ℓ} : {A : Type ℓ} → (List A → List A) → Type ℓ
IsOrder {A = A} order = (xs : List A) (x : A) → In x (order xs) ↔ In x xs
