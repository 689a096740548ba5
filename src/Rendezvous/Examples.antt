-- ===== src/Rendezvous/Examples.antt =====
-- Tests and witnesses for the rendezvous hashing.
use kube_agentic_networking.Common.{
  Bool, ℕ, ◌≤◌, ◌+◌, ◌==◌, false, eq_iff, Option, String, ◌≡◌, ◌↔◌, ◌≢◌, refl, inl, inr, true, List,
  [], ◌∷◌, some, none, In, All,
}
use kube_agentic_networking.Api.{not_found, found}
use kube_agentic_networking.Rendezvous.{
  fnvhash, Lease, Hasher, LeaseWrite, create, update, lease_duration, live_replicas,
  assigned_to_this_replica, max_replica, ensure_lease, sends,
}
use kube_agentic_networking.Rendezvous.Winner.{IsWinner, max_replica-IsWinner}
use kube_agentic_networking.Rendezvous.Assignment.{
  max_replica-stable, HoldsLive, live_replicas_iff, live_replicas-none_iff, assigned_exactly_once,
}
use kube_agentic_networking.Rendezvous.Heartbeat.{ensure_lease-live, written}

-- FNV-1, and not FNV-1a, of "a".
fnvhash_test : fnvhash "a" ≡ 0xaf63bd4c8601b7be
unfolding fnvhash
fnvhash_test = refl

abbrev member : String → Hasher
member name = record {
  lease_namespace = "system";
  application_name = "controller";
  replica_name = name;
  replica_uid = "uid";
}

-- Renewed at time 0.
abbrev lease_of : String → Option ℕ → Lease
lease_of name renewed = record {
  namespace = "system";
  name = name;
  labels = [];
  owner_uid = none;
  holder_identity = some name;
  lease_duration_seconds = some 15;
  acquire_time = some 0;
  renew_time = renewed;
  lease_transitions = some 1;
}

abbrev two_leases : List Lease
two_leases = lease_of "a" (some 0) ∷ lease_of "b" (some 0) ∷ []

two_leases-live : live_replicas 7 two_leases ≡ some ("a" ∷ "b" ∷ [])
unfolding live_replicas
two_leases-live = refl

text-ne_empty : (r : String) → (r == "") ≡ false → r ≢ ""
text-ne_empty r h e = let g = (eq_iff r "").1 e in cc

a_b-named : All {A = String} (λ r. r ≢ "") ("a" ∷ "b" ∷ [])
a_b-named = (text-ne_empty "a" refl, (text-ne_empty "b" refl, tt))

-- The replica "a" lists its leases in the other order, and asks later.
abbrev listed : Bool → List Lease
listed true = lease_of "b" (some 0) ∷ lease_of "a" (some 0) ∷ []
listed false = two_leases

abbrev names : Bool → List String
names true = "b" ∷ "a" ∷ []
names false = "a" ∷ "b" ∷ []

abbrev asked_at : Bool → ℕ
asked_at true = 9
asked_at false = 7

abbrev is_a : Hasher → Bool
is_a h = h.replica_name == "a"

names-live : (b : Bool) → live_replicas (asked_at b) (listed b) ≡ some (names b)
unfolding live_replicas
names-live true = refl
names-live false = refl

names-same : (b : Bool) (r : String) → In r (names b) ↔ In r ("a" ∷ "b" ∷ [])
names-same false r = (λ i. i, λ i. i)
names-same true r = (
  elim [ inl e ↦ inr (inl e) | inr (inl e) ↦ inl e | inr (inr i) ↦ elim i [ ] ],
  elim [ inl e ↦ inr (inl e) | inr (inl e) ↦ inl e | inr (inr i) ↦ elim i [ ] ],
)

assigned_exactly_once_example :
    (r : String) × In r ("a" ∷ "b" ∷ [])
    × ((h : Hasher)
        → (assigned_to_this_replica h (asked_at (is_a h)) (some (listed (is_a h))) "default/gateway"
            ≡ some true)
          ↔ (h.replica_name ≡ r))
assigned_exactly_once_example =
    assigned_exactly_once (λ h. asked_at (is_a h)) (λ h. listed (is_a h)) (λ h. names (is_a h))
      ("a" ∷ "b" ∷ []) "default/gateway" (λ h. names-live (is_a h)) (λ h. names-same (is_a h))
      (λ e. cc) a_b-named

a_b-winner : max_replica "i" ("a" ∷ "b" ∷ []) ≡ "a"
unfolding max_replica
a_b-winner = refl

max_replica-IsWinner_example : IsWinner "i" ("a" ∷ "b" ∷ []) (max_replica "i" ("a" ∷ "b" ∷ []))
max_replica-IsWinner_example = max_replica-IsWinner "i" ("a" ∷ "b" ∷ []) (λ e. cc) a_b-named

-- The replica "b" leaves.
max_replica-stable_example : max_replica "i" ("a" ∷ []) ≡ max_replica "i" ("a" ∷ "b" ∷ [])
max_replica-stable_example =
    max_replica-stable "i" ("a" ∷ "b" ∷ []) ("a" ∷ []) a_b-named
      (λ r i. elim i [ inl e ↦ inl e | inr j ↦ elim j [ ] ]) (inl a_b-winner)

live_replicas_iff_example : In {A = String} "b" ("a" ∷ "b" ∷ []) ↔ HoldsLive 7 two_leases "b"
live_replicas_iff_example = live_replicas_iff 7 two_leases ("a" ∷ "b" ∷ []) two_leases-live "b"

live_replicas-none_iff_example :
    (live_replicas 7 (lease_of "a" none ∷ []) ≡ none)
    ↔ ((lease : Lease) × In lease (lease_of "a" none ∷ []) × (lease.renew_time ≡ none))
live_replicas-none_iff_example = live_replicas-none_iff 7 (lease_of "a" none ∷ [])

abbrev first_heartbeat : LeaseWrite
first_heartbeat = create (record {
  namespace = "system";
  name = "a";
  labels = ("rendezvous.kube-agentic-networking.sigs.k8s.io", "controller") ∷ [];
  owner_uid = some "uid";
  holder_identity = some "a";
  lease_duration_seconds = some 15;
  acquire_time = some 5;
  renew_time = some 5;
  lease_transitions = some 1;
})

first_heartbeat-sent : ensure_lease (member "a") 5 not_found ≡ sends first_heartbeat
unfolding ensure_lease
first_heartbeat-sent = refl

ensure_lease-live_example :
    (live_replicas 7 (written first_heartbeat ∷ []) ≡ some ("a" ∷ [])) ↔ (7 ≤ 5 + lease_duration)
ensure_lease-live_example =
    ensure_lease-live (member "a") 5 7 not_found first_heartbeat first_heartbeat-sent

abbrev renewed : Lease
renewed = record (lease_of "a" (some 5)) {
  labels = ("rendezvous.kube-agentic-networking.sigs.k8s.io", "controller") ∷ [];
  owner_uid = some "uid";
}

renewed-sent : ensure_lease (member "a") 5 (found (lease_of "a" (some 0))) ≡ sends (update renewed)
unfolding ensure_lease
renewed-sent = refl
