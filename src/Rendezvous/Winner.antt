-- ===== src/Rendezvous/Winner.antt =====
-- The replica that the second loop of `AssignedToThisReplica` chooses:
-- pkg/infra/rendezvous/hasher.go.
use mathlib.Core.Path.{subst}
use kube_agentic_networking.Common.{
  ℕ, String, ◌≡◌, ◌≢◌, refl, sym, inl, inr, Bool, true, false, ◌&&◌, ◌||◌, List, [], ◌∷◌, arith,
  ◌==◌, eq_iff, ltb, eqb, if◌then◌else◌, Bool-cases, concat, str_ltb, str_ltb_irrefl, str_ltb_asymm,
  str_ltb_trans, str_ltb_total, In, All,
}
use kube_agentic_networking.Rendezvous.{fnvhash, consider, consider_all, max_replica}

pub weight : String → String → ℕ
weight item replica = fnvhash (concat (item ∷ replica ∷ []))

-- `b` goes before `a`: it is heavier, or as heavy with the smaller name.
pub beats : String → String → String → Bool
beats item a b =
    ltb (weight item a) (weight item b) || (eqb (weight item b) (weight item a) && str_ltb b a)

module _ (item : String) where
  beats_irrefl : (a : String) → beats item a a ≡ false
  unfolding beats
  beats_irrefl a = ground (arith, str_ltb_irrefl a)

  beats_asymm : (a b : String) → beats item a b ≡ true → beats item b a ≡ false
  unfolding beats
  beats_asymm a b h = ground (arith, str_ltb_asymm b a)

  beats_trans :
      (a b c : String) → beats item a b ≡ true → beats item b c ≡ true → beats item a c ≡ true
  unfolding beats
  beats_trans a b c h k = ground (arith, str_ltb_trans c b a)

  beats_total : (a b : String) → beats item a b ≡ false → beats item b a ≡ false → a ≡ b
  unfolding beats
  beats_total a b h k = str_ltb_total a b (ground arith) (ground arith)

  beats_cotrans :
      (a b c : String) → beats item a b ≡ false → beats item b c ≡ false → beats item a c ≡ false
  beats_cotrans a b c h k = elim (Bool-cases (beats item b a)) [
    | inl before ↦ elim (Bool-cases (beats item a c)) [
      | inl t ↦ cc (beats_trans b a c before t)
      | inr f ↦ f
    ]
    | inr after ↦ subst (λ x. beats item x c ≡ false) (sym (beats_total a b h after)) k
  ]

  -- `w` is live and no live replica goes before it.
  pub record IsWinner (replicas : List String) (w : String) : Type 0 where
    pub live : In w replicas
    pub unbeaten : (r : String) → In r replicas → beats item w r ≡ false

  -- Two winners of lists with the same replicas are one.
  pub IsWinner-unique :
      (xs ys : List String) (v w : String)
      → IsWinner xs v
      → IsWinner ys w
      → In v ys
      → In w xs
      → v ≡ w
  IsWinner-unique xs ys v w p q i j = beats_total v w (p.unbeaten w j) (q.unbeaten v i)

  -- The loop of comparisons once the first replica is chosen.
  pick : String → String → String
  pick a r = if beats item a r then r else a

  pick_all : String → List String → String
  pick_all a [] = a
  pick_all a (r ∷ rest) = pick_all (pick a r) rest

  IsWinner-behind :
      (a x w : String) (xs : List String)
      → IsWinner (x ∷ xs) w
      → beats item w a ≡ false
      → IsWinner (a ∷ x ∷ xs) w
  IsWinner-behind a x w xs h f = record {
    live = inr h.live;
    unbeaten = λ r. elim [ inl e ↦ rw e f | inr i ↦ h.unbeaten r i ];
  }

  IsWinner-before :
      (a x w : String) (xs : List String)
      → IsWinner (a ∷ xs) w
      → beats item w x ≡ false
      → IsWinner (a ∷ x ∷ xs) w
  IsWinner-before a x w xs h f = record {
    live = elim h.live [ inl e ↦ inl e | inr i ↦ inr (inr i) ];
    unbeaten = λ r. elim [
      | inl e ↦ h.unbeaten r (inl e)
      | inr (inl e) ↦ rw e f
      | inr (inr i) ↦ h.unbeaten r (inr i)
    ];
  }

  pick_all-IsWinner : (a : String) (xs : List String) → IsWinner (a ∷ xs) (pick_all a xs)
  unfolding pick_all pick
  pick_all-IsWinner a [] = record {
    live = inl refl;
    unbeaten = λ r. elim [ inl e ↦ rw e (beats_irrefl a) | inr h ↦ elim h [ ] ];
  }
  pick_all-IsWinner a (x ∷ xs) = elim (Bool-cases (beats item a x)) [
    | inl t ↦
        let w = pick_all-IsWinner x xs in
        rw t (
          IsWinner-behind a x _ xs w
            (beats_cotrans _ x a (w.unbeaten x (inl refl)) (beats_asymm a x t)))
    | inr f ↦
        let w = pick_all-IsWinner a xs in
        rw f (IsWinner-before a x _ xs w (beats_cotrans _ a x (w.unbeaten a (inl refl)) f))
  ]

  -- The program's loop keeps the weight of the chosen replica beside its name.
  consider-pick :
      (a r : String)
      → a ≢ ""
      → consider item (record { weight = weight item a; replica = a }) r
        ≡ record { weight = weight item (pick a r); replica = pick a r }
  unfolding consider pick beats weight
  consider-pick a r h = elim (Bool-cases (a == "")) [
    | inl e ↦ absurd (h ((eq_iff a "").0 e))
    | inr f ↦ rw f (ground arith)
  ]

  pick-ne-empty : (a x : String) → a ≢ "" → x ≢ "" → pick a x ≢ ""
  unfolding pick
  pick-ne-empty a x h k = ground arith

  consider_all-pick_all :
      (a : String) (xs : List String)
      → a ≢ ""
      → All (λ r. r ≢ "") xs
      → (consider_all item (record { weight = weight item a; replica = a }) xs).replica
        ≡ pick_all a xs
  unfolding consider_all pick_all
  consider_all-pick_all a [] h k = refl
  consider_all-pick_all a (x ∷ xs) h k =
      rw (consider-pick a x h, consider_all)
        (consider_all-pick_all (pick a x) xs (pick-ne-empty a x h k.0) k.1)

  first_round :
      (r : String) (rest : List String)
      → All (λ r. r ≢ "") (r ∷ rest)
      → max_replica item (r ∷ rest) ≡ pick_all r rest
  unfolding max_replica consider_all consider weight
  first_round r rest k = consider_all-pick_all r rest k.0 k.1

  -- Where some replica is live and the live replicas have names, the replica that the program chooses
  -- is live, and no live replica is heavier, or as heavy with a smaller name.
  pub max_replica-IsWinner :
      (replicas : List String)
      → replicas ≢ []
      → All (λ r. r ≢ "") replicas
      → IsWinner replicas (max_replica item replicas)
  unfolding max_replica
  max_replica-IsWinner [] h k = absurd (h refl)
  max_replica-IsWinner (r ∷ rest) h k =
      subst (IsWinner (r ∷ rest)) (sym (first_round r rest k)) (pick_all-IsWinner r rest)
