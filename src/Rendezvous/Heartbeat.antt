-- ===== src/Rendezvous/Heartbeat.antt =====
-- The lease that `ensureLease` writes, as `AssignedToThisReplica` reads it:
-- pkg/infra/rendezvous/hasher.go.
use kube_agentic_networking.Common.{ℕ, ◌+◌, ◌≤◌, ◌≡◌, refl, ◌↔◌, [], ◌∷◌, some, arith}
use kube_agentic_networking.Api.{Answer, found, not_found, failed}
use kube_agentic_networking.Rendezvous.{
  Hasher, Lease, LeaseWrite, create, update, sends, lease_duration, live_replicas, ensure_lease,
}

abbrev pub written : LeaseWrite → Lease
written (create lease) = lease
written (update lease) = lease

-- Where the write that `ensureLease` sends at time `now` is the only lease that is stored, the
-- live replicas are this one until 15 seconds after `now`, and not after that.
pub ensure_lease-live :
    (h : Hasher) (now later : ℕ) (answer : Answer Lease) (w : LeaseWrite)
    → ensure_lease h now answer ≡ sends w
    → (live_replicas later (written w ∷ []) ≡ some (h.replica_name ∷ []))
      ↔ (later ≤ now + lease_duration)
unfolding ensure_lease live_replicas
ensure_lease-live h now later (found lease) w e = ground arith
ensure_lease-live h now later not_found w e = ground arith
ensure_lease-live h now later (failed msg) w e = cc

-- An update of the lease is sent only where the lease was found, and keeps the time at which the
-- lease was acquired and the count of its transitions.
pub ensure_lease-renewal :
    (h : Hasher) (now : ℕ) (answer : Answer Lease) (lease : Lease)
    → ensure_lease h now answer ≡ sends (update lease)
    → (old : Lease) × (answer ≡ found old)
      × (lease.acquire_time ≡ old.acquire_time)
      × (lease.lease_transitions ≡ old.lease_transitions)
unfolding ensure_lease
ensure_lease-renewal h now (found old) lease e = (old, refl, ground arith, ground arith)
ensure_lease-renewal h now not_found lease e = absurd (cc)
ensure_lease-renewal h now (failed msg) lease e = absurd (cc)
