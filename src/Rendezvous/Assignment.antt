-- ===== src/Rendezvous/Assignment.antt =====
-- Which replica has an item, for a set of leases and when the set changes: `AssignedToThisReplica` of
-- pkg/infra/rendezvous/hasher.go.
use mathlib.Core.Path.{subst, subst₂}
use kube_agentic_networking.Common.{
  Bool, ℕ, ◌≤◌, String, ◌≡◌, ◌≢◌, refl, sym, ◌↔◌, ◌⊎◌, inl, inr, true, List, [], ◌∷◌, Option, none,
  some, arith, eq_iff, Option-cases, In, All, All-In, In-All,
}
use kube_agentic_networking.Rendezvous.{
  Hasher, Lease, deadline, live_holder, add_live, live_replicas, max_replica,
  assigned_to_this_replica,
}
use kube_agentic_networking.Rendezvous.Winner.{IsWinner-unique, max_replica-IsWinner}

In-ne-nil : (x : String) (xs : List String) → In x xs → xs ≢ []
In-ne-nil x [] i e = elim i [ ]
In-ne-nil x (y ∷ ys) i e = cc

-- When the live replicas `xs`, which have names, become a part `ys` of them, and the replica that
-- the item had is still live, the item stays where it was.
pub max_replica-stable :
    (item : String) (xs ys : List String)
    → All (λ r. r ≢ "") xs
    → ((r : String) → In r ys → In r xs)
    → In (max_replica item xs) ys
    → max_replica item ys ≡ max_replica item xs
max_replica-stable item xs ys named sub stays =
    IsWinner-unique item ys xs _ _
      (max_replica-IsWinner item ys (In-ne-nil _ ys stays)
        (All-In _ ys (λ r i. In-All _ xs r named (sub r i))))
      (max_replica-IsWinner item xs (In-ne-nil _ xs (sub _ stays)) named)
      (sub _
        (max_replica-IsWinner item ys (In-ne-nil _ ys stays)
          (All-In _ ys (λ r i. In-All _ xs r named (sub r i)))).live)
      stays

-- Which replicas count as live: those that hold a lease whose deadline has not passed.
abbrev pub HoldsLive : ℕ → List Lease → String → Type 0
HoldsLive now leases r =
    (lease : Lease) × (renewed : ℕ) × In lease leases
    × (lease.holder_identity ≡ some r)
    × (lease.renew_time ≡ some renewed)
    × (now ≤ deadline renewed lease)

live_holder_lem :
    (now renewed : ℕ) (lease : Lease) (r : String)
    → (live_holder now renewed lease ≡ some r)
      ↔ ((lease.holder_identity ≡ some r) × (now ≤ deadline renewed lease))
unfolding live_holder
live_holder_lem now renewed lease r = ground arith

In-add_live :
    (o : Option String) (rest : List String) (r : String)
    → In r (add_live o rest) ↔ ((o ≡ some r) ⊎ In r rest)
In-add_live none rest r = (λ i. inr i, elim [ inl e ↦ cc | inr i ↦ i ])
In-add_live (some h) rest r =
    (elim [ inl e ↦ inl (cc) | inr i ↦ inr i ], elim [ inl e ↦ inl (cc) | inr i ↦ inr i ])

-- The three steps of a round that returns.
live_replicas-cons :
    (now : ℕ) (l : Lease) (ls : List Lease) (xs : List String)
    → live_replicas now (l ∷ ls) ≡ some xs
    → (renewed : ℕ) × (rest : List String) × (l.renew_time ≡ some renewed)
      × (live_replicas now ls ≡ some rest)
      × (xs ≡ add_live (live_holder now renewed l) rest)
unfolding live_replicas
live_replicas-cons now l ls xs e = elim (Option-cases l.renew_time) [
  | inl missing ↦ cc (rw missing at e)
  | inr (renewed, p) ↦ elim (Option-cases (live_replicas now ls)) [
    | inl stopped ↦ cc (rw (p, stopped) at e)
    | inr (rest, q) ↦ (renewed, rest, p, q, let f = rw (p, q) at e in cc)
  ]
]

live_replicas-nil : (now : ℕ) (xs : List String) → live_replicas now [] ≡ some xs → xs ≡ []
unfolding live_replicas
live_replicas-nil now xs e = cc

live_replicas_sound :
    (now : ℕ) (leases : List Lease) (xs : List String)
    → live_replicas now leases ≡ some xs
    → (r : String) → In r xs
    → HoldsLive now leases r
live_replicas_sound now [] xs e r i = absurd (In-ne-nil r xs i (live_replicas-nil now xs e))
live_replicas_sound now (l ∷ ls) xs e r i =
    let (renewed, rest, p, q, s) = live_replicas-cons now l ls xs e in
    elim ((In-add_live (live_holder now renewed l) rest r).0 (subst (In r) s i)) [
      | inl h ↦
          let (held, due) = (live_holder_lem now renewed l r).0 h in
          (l, renewed, inl refl, held, p, due)
      | inr j ↦
          let (m, t, k, held, renewal, due) = live_replicas_sound now ls rest q r j in
          (m, t, inr k, held, renewal, due)
    ]

live_replicas_complete :
    (now : ℕ) (leases : List Lease) (xs : List String)
    → live_replicas now leases ≡ some xs
    → (r : String) → HoldsLive now leases r
    → In r xs
live_replicas_complete now [] xs e r (l, t, i, h, q, d) = elim i [ ]
live_replicas_complete now (l ∷ ls) xs e r (m, t, i, held, renewal, due) =
    let (renewed, rest, p, q, s) = live_replicas-cons now l ls xs e in
    let there = (In-add_live (live_holder now renewed l) rest r).1 in
    subst (In r) (sym s) (
      there (elim i [
        | inl here ↦
            let at_l : l.renew_time ≡ some t = subst (λ x. x.renew_time ≡ some t) here renewal in
            let same : t ≡ renewed = cc (at_l, p) in
            inl (
              (live_holder_lem now renewed l r).1 (
                subst (λ x. x.holder_identity ≡ some r) here held,
                subst₂ (λ x y. now ≤ deadline x y) same here due,
              ))
        | inr later ↦ inr (live_replicas_complete now ls rest q r (m, t, later, held, renewal, due))
      ]))

-- The replicas that `AssignedToThisReplica` considers are exactly the holders of the leases whose
-- renewal plus duration has not passed, provided that the loop does not stop at a nil renewal.
pub live_replicas_iff :
    (now : ℕ) (leases : List Lease) (xs : List String)
    → live_replicas now leases ≡ some xs
    → (r : String) → In r xs ↔ HoldsLive now leases r
live_replicas_iff now leases xs e r =
    (live_replicas_sound now leases xs e r, live_replicas_complete now leases xs e r)

live_replicas-stops :
    (now : ℕ) (leases : List Lease)
    → live_replicas now leases ≡ none
    → (lease : Lease) × In lease leases × (lease.renew_time ≡ none)
unfolding live_replicas
live_replicas-stops now [] e = cc
live_replicas-stops now (l ∷ ls) e = elim (Option-cases l.renew_time) [
  | inl missing ↦ (l, inl refl, missing)
  | inr (renewed, p) ↦ elim (Option-cases (live_replicas now ls)) [
    | inl stopped ↦ let (m, i, missing) = live_replicas-stops now ls stopped in (m, inr i, missing)
    | inr (rest, q) ↦ let f = rw (p, q) at e in cc
  ]
]

live_replicas-stopped :
    (now : ℕ) (leases : List Lease)
    → ((lease : Lease) × In lease leases × (lease.renew_time ≡ none))
    → live_replicas now leases ≡ none
unfolding live_replicas
live_replicas-stopped now [] (m, i, missing) = elim i [ ]
live_replicas-stopped now (l ∷ ls) (m, inl here, missing) =
    rw (subst (λ x. x.renew_time ≡ none) here missing)
live_replicas-stopped now (l ∷ ls) (m, inr later, missing) =
    let rest = live_replicas-stopped now ls (m, later, missing) in
    elim (Option-cases l.renew_time) [ inl p ↦ rw p | inr (t, p) ↦ rw (p, rest) ]

-- The loop over the leases dereferences a nil pointer exactly when some listed lease has no
-- renewal time.
pub live_replicas-none_iff :
    (now : ℕ) (leases : List Lease)
    → (live_replicas now leases ≡ none)
      ↔ ((lease : Lease) × In lease leases × (lease.renew_time ≡ none))
live_replicas-none_iff now leases =
    (live_replicas-stops now leases, live_replicas-stopped now leases)

-- Lists with the same replicas have the same winner.
max_replica-same :
    (item : String) (xs live : List String)
    → ((r : String) → In r xs ↔ In r live)
    → live ≢ []
    → All (λ r. r ≢ "") live
    → max_replica item xs ≡ max_replica item live
max_replica-same item xs live same some_live named =
    let winner = max_replica-IsWinner item live some_live named in
    let chosen =
      max_replica-IsWinner item xs (In-ne-nil _ xs ((same _).1 winner.live))
        (All-In _ xs (λ r i. In-All _ live r named ((same r).0 i))) in
    IsWinner-unique item xs live _ _ chosen winner ((same _).0 chosen.live) ((same _).1 winner.live)

assigned_iff :
    (now : ℕ) (leases : List Lease) (xs : List String) (item : String)
    → live_replicas now leases ≡ some xs
    → (h : Hasher)
    → (assigned_to_this_replica h now (some leases) item ≡ some true)
      ↔ (h.replica_name ≡ max_replica item xs)
unfolding assigned_to_this_replica
assigned_iff now leases xs item e h =
    rw e (ground (arith, eq_iff (max_replica item xs) h.replica_name))

-- Let each replica ask at its own time about the leases that it lists, in its own order, so that the loop
-- returns for each of them. Where all of them find the same names live, at least one, and none of these names
-- is empty, the item is assigned to exactly one name: one of those that are live, and no other.
pub assigned_exactly_once :
    (now : Hasher → ℕ) (leases : Hasher → List Lease) (xs : Hasher → List String)
    (live : List String) (item : String)
    → ((h : Hasher) → live_replicas (now h) (leases h) ≡ some (xs h))
    → ((h : Hasher) (r : String) → In r (xs h) ↔ In r live)
    → live ≢ []
    → All (λ r. r ≢ "") live
    → (r : String) × In r live
      × ((h : Hasher)
          → (assigned_to_this_replica h (now h) (some (leases h)) item ≡ some true)
            ↔ (h.replica_name ≡ r))
assigned_exactly_once now leases xs live item e same some_live named =
    let winner = max_replica-IsWinner item live some_live named in
    (
      max_replica item live,
      winner.live,
      λ h.
          subst
            (λ r.
              (assigned_to_this_replica h (now h) (some (leases h)) item ≡ some true)
              ↔ (h.replica_name ≡ r))
            (max_replica-same item (xs h) live (same h) some_live named)
            (assigned_iff (now h) (leases h) (xs h) item (e h) h),
    )

-- Where the loop over the leases returns, so does the whole.
pub assigned-returns :
    (now : ℕ) (leases : List Lease) (xs : List String) (item : String) (h : Hasher)
    → live_replicas now leases ≡ some xs
    → (b : Bool) × (assigned_to_this_replica h now (some leases) item ≡ some b)
unfolding assigned_to_this_replica
assigned-returns now leases xs item h e = rw e (_, refl)
