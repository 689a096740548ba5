-- ===== src/Common/Maps.antt =====
-- Go maps as association lists. A new key goes to the end; the program's loops over a map take
-- the order of iteration, which Go leaves open, as an argument where it shows.
use Prim.Native.Nat.{ℕ}
use Prim.Native.String.{String}
use mathlib.Core.Path.{ap₂, ◌≡◌, refl, sym, ap, subst}
use mathlib.Core.Logic.{◌↔◌, ◌⊎◌, inl, inr, ◌≢◌}
use mathlib.Core.Bool.{◌&&◌, Bool, true}
use mathlib.Core.Option.{Option, none, some}
use mathlib.Core.List.{List, [], ◌∷◌}
use native.Mathlib.Omega.{arith}
use text.Mathlib.Text.{◌==◌}
use text.Mathlib.TextEquality.{eq_iff}
use kube_agentic_networking.Common.Bools.{eqb, eqb_iff, if◌then◌else◌, Bool-cases}
use kube_agentic_networking.Common.Lists.{In}

-- The keys of a map.
pub record Eq {ℓ} (K : Type ℓ) : Type ℓ where
  pub beq : K → K → Bool
  pub beq_iff : (a b : K) → (beq a b ≡ true) ↔ (a ≡ b)

instance abbrev pub nat_eq : Eq ℕ
nat_eq = record { beq = eqb; beq_iff = eqb_iff }

instance abbrev pub string_eq : Eq String
string_eq = record { beq = ◌==◌; beq_iff = eq_iff }

pub beq_refl {ℓ} : {K : Type ℓ} ⦃e : Eq K⦄ (k : K) → e.beq k k ≡ true
beq_refl ⦃e⦄ k = (e.beq_iff k k).1 refl

module _ {ℓ κ} {K : Type ℓ} {V : Type κ} ⦃e : Eq K⦄ where
  unfoldable pub lookup : K → List (K × V) → Option V
  lookup k [] = none
  lookup k ((j, v) ∷ m) = if e.beq j k then some v else lookup k m

  unfoldable pub insert : K → V → List (K × V) → List (K × V)
  insert k v [] = (k, v) ∷ []
  insert k v ((j, w) ∷ m) = if e.beq j k then (k, v) ∷ m else (j, w) ∷ insert k v m

  abbrev pub keys : List (K × V) → List K
  keys [] = []
  keys ((k, v) ∷ m) = k ∷ keys m

  pub lookup-insert :
      (k j : K) (v : V) (m : List (K × V))
      → lookup j (insert k v m) ≡ (if e.beq k j then some v else lookup j m)
  unfolding lookup insert
  lookup-insert k j v [] = refl
  lookup-insert k j v ((i, w) ∷ m) =
      ground (arith, e.beq_iff k j, e.beq_iff i k, e.beq_iff i j, lookup-insert k j v m)

  abbrev pub values : List (K × V) → List V
  values [] = []
  values ((k, v) ∷ m) = v ∷ values m

  pub lookup-In-values : (k : K) (m : List (K × V)) {v : V} → lookup k m ≡ some v → In v (values m)
  unfolding lookup
  lookup-In-values k [] h = cc
  lookup-In-values k ((j, w) ∷ m) h = elim (Bool-cases (e.beq j k)) [
    | inl t ↦ let f = rw t at h in inl (cc)
    | inr t ↦ inr (lookup-In-values k m (rw t at h))
  ]

  pub In-values-insert :
      (k : K) (v x : V) (m : List (K × V))
      → In x (values (insert k v m))
      → (x ≡ v) ⊎ In x (values m)
  unfolding insert
  In-values-insert k v x [] h = h
  In-values-insert k v x ((j, w) ∷ m) h = elim (Bool-cases (e.beq j k)) [
    | inl t ↦
        let i : (x ≡ v) ⊎ In x (values m) = rw t at h in
        elim i [ inl q ↦ inl q | inr r ↦ inr (inr r) ]
    | inr t ↦
        let i : (x ≡ w) ⊎ In x (values (insert k v m)) = rw t at h in
        elim i [
          | inl q ↦ inr (inl q)
          | inr r ↦ elim (In-values-insert k v x m r) [ inl q ↦ inl q | inr u ↦ inr (inr u) ]
        ]
  ]

  -- A key stays bound when another is.
  pub lookup-insert-ne_none :
      (k j : K) (v : V) (m : List (K × V)) → lookup j m ≢ none → lookup j (insert k v m) ≢ none
  lookup-insert-ne_none k j v m h = ground (arith, lookup-insert k j v m)

  pub lookup-insert_self : (k : K) (v : V) (m : List (K × V)) → lookup k (insert k v m) ≡ some v
  lookup-insert_self k v m = simp (lookup-insert, beq_refl k)

  -- No key is bound twice.
  abbrev pub Unique : List (K × V) → Type ℓ
  Unique [] = Unit
  Unique ((k, v) ∷ m) = (In k (keys m) → ⊥) × Unique m

  In-keys : (k : K) (v : V) (m : List (K × V)) → In (k, v) m → In k (keys m)
  In-keys k v [] i = elim i [ ]
  In-keys k v ((j, w) ∷ m) (inl e) = inl (ap (λ z. z.0) e)
  In-keys k v ((j, w) ∷ m) (inr i) = inr (In-keys k v m i)

  keys-insert :
      (j k : K) (v : V) (m : List (K × V)) → In j (keys (insert k v m)) → (j ≡ k) ⊎ In j (keys m)
  unfolding insert
  keys-insert j k v [] i = i
  keys-insert j k v ((l, w) ∷ m) i = elim (Bool-cases (e.beq l k)) [
    | inl t ↦
        let h : (j ≡ k) ⊎ In j (keys m) = rw t at i in
        elim h [ inl q ↦ inl q | inr r ↦ inr (inr r) ]
    | inr t ↦
        let h : (j ≡ l) ⊎ In j (keys (insert k v m)) = rw t at i in
        elim h [
          | inl q ↦ inr (inl q)
          | inr r ↦ elim (keys-insert j k v m r) [ inl q ↦ inl q | inr u ↦ inr (inr u) ]
        ]
  ]

  pub insert-Unique : (k : K) (v : V) (m : List (K × V)) → Unique m → Unique (insert k v m)
  unfolding insert
  insert-Unique k v [] u = (λ i. elim i [ ], tt)
  insert-Unique k v ((l, w) ∷ m) (fresh, u) = elim (Bool-cases (e.beq l k)) [
    | inl t ↦ rw t (λ i. fresh (subst (λ z. In z (keys m)) (sym ((e.beq_iff l k).0 t)) i), u)
    | inr t ↦ rw t (
      λ i. elim (keys-insert l k v m i) [
        | inl q ↦ let g = (e.beq_iff l k).1 q in cc
        | inr j ↦ fresh j
      ],
      insert-Unique k v m u,
    )
  ]

  pub In-lookup : (k : K) (v : V) (m : List (K × V)) → Unique m → In (k, v) m → lookup k m ≡ some v
  unfolding lookup
  In-lookup k v [] u i = elim i [ ]
  In-lookup k v ((j, w) ∷ m) (fresh, u) (inl q) =
      rw ((e.beq_iff j k).1 (sym (ap (λ z. z.0) q))) (ap some (sym (ap (λ z. z.1) q)))
  In-lookup k v ((j, w) ∷ m) (fresh, u) (inr i) = elim (Bool-cases (e.beq j k)) [
    | inl t ↦
        absurd (fresh (subst (λ z. In z (keys m)) (sym ((e.beq_iff j k).0 t)) (In-keys k v m i)))
    | inr t ↦ rw t (In-lookup k v m u i)
  ]

  pub lookup-In : (k : K) (v : V) (m : List (K × V)) → lookup k m ≡ some v → In (k, v) m
  unfolding lookup
  lookup-In k v [] h = absurd (cc)
  lookup-In k v ((j, w) ∷ m) h = elim (Bool-cases (e.beq j k)) [
    | inl t ↦ let f = rw t at h in let q = (e.beq_iff j k).0 t in inl (cc)
    | inr t ↦ inr (lookup-In k v m (rw t at h))
  ]

-- The keys that are a namespace and a name.
abbrev pub same_name : String × String → String × String → Bool
same_name a b = a.0 == b.0 && a.1 == b.1

pub same_name_iff : (a b : String × String) → (same_name a b ≡ true) ↔ (a ≡ b)
same_name_iff (a, c) (b, d) = (
  λ h.
      let p = (eq_iff a b).0 (ground (arith, h)) in
      let q = (eq_iff c d).0 (ground (arith, h)) in ap₂ (λ x y. (x, y)) p q,
  λ h.
      let p = (eq_iff a b).1 (ap (λ z. z.0) h) in
      let q = (eq_iff c d).1 (ap (λ z. z.1) h) in ground (arith, p, q),
)

instance abbrev pub name_eq : Eq (String × String)
name_eq = record { beq = same_name; beq_iff = same_name_iff }

-- The values of a map are what its entries hold.
pub In-values_iff {ℓ κ} :
    {K : Type ℓ} {V : Type κ} ⦃eq : Eq K⦄ (v : V) (m : List (K × V))
    → In v (values m) ↔ ((k : K) × In (k, v) m)
In-values_iff v [] = (λ i. elim i [ ], λ (k, i). elim i [ ])
In-values_iff v ((k, w) ∷ m) = (
  elim [
    | inl e ↦ (k, inl (ap (λ z. (k, z)) e))
    | inr i ↦ let (j, h) = (In-values_iff v m).0 i in (j, inr h)
  ],
  λ (j, i). elim i [ inl e ↦ inl (ap (λ z. z.1) e) | inr h ↦ inr ((In-values_iff v m).1 (j, h)) ],
)

module _ {ℓ κ} {K : Type ℓ} {V : Type κ} ⦃e : Eq K⦄ where
  -- delete(m, k)
  unfoldable pub remove : K → List (K × V) → List (K × V)
  remove k [] = []
  remove k ((j, v) ∷ m) = let rest = remove k m in if e.beq j k then rest else (j, v) ∷ rest

  pub lookup-remove :
      (k j : K) (m : List (K × V))
      → lookup j (remove k m) ≡ (if e.beq k j then none else lookup j m)
  unfolding lookup remove
  lookup-remove k j [] = ground arith
  lookup-remove k j ((i, w) ∷ m) =
      ground (arith, e.beq_iff k j, e.beq_iff i k, e.beq_iff i j, lookup-remove k j m)
