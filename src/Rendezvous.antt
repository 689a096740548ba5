-- ===== src/Rendezvous.antt =====
-- Rendezvous hashing over leases: pkg/infra/rendezvous/hasher.go.
--
-- `Hasher` keeps no state of its own but its lease in the API server: `ensure_lease` is given the
-- answers of the API server and returns the write that it makes. Times are nanoseconds. A nil
-- dereference, which stops the program, is `none`.
pub mod Winner
pub mod Assignment
pub mod Heartbeat
mod Examples
use Prim.Native.Nat.{bit_xor}
use kube_agentic_networking.Common.{
  ℕ, ◌+◌, ◌*◌, ◌%◌, ◌^◌, String, Bool, true, false, ◌&&◌, ◌||◌, Option, none, some, List, [], ◌∷◌,
  ◌==◌, ltb, eqb, if◌then◌else◌, or_default, ◌>>=◌, concat, bytes, str_ltb,
}
use kube_agentic_networking.Api.{Answer, found, not_found, failed}

-- The fields of a `coordinationv1.Lease` that the program reads or writes.
pub record Lease : Type 0 where
  pub namespace : String
  pub name : String
  pub labels : List (String × String)
  pub owner_uid : Option String
  pub holder_identity : Option String
  pub lease_duration_seconds : Option ℕ
  pub acquire_time : Option ℕ
  pub renew_time : Option ℕ
  pub lease_transitions : Option ℕ

pub record Hasher : Type 0 where
  pub lease_namespace : String
  pub application_name : String
  pub replica_name : String
  pub replica_uid : String

abbrev pub second : ℕ
second = 1000000000

-- 15 seconds, in nanoseconds
abbrev pub lease_duration : ℕ
lease_duration = 15 * second

-- 10 seconds, in nanoseconds
abbrev pub lease_renewal_period : ℕ
lease_renewal_period = 10 * second

abbrev pub label_key : String
label_key = "rendezvous.kube-agentic-networking.sigs.k8s.io"

-- fnv.New64 is FNV-1 of the standard library: multiply, then exclusive-or the byte.
fnv_from : ℕ → List ℕ → ℕ
fnv_from hash [] = hash
fnv_from hash (b ∷ rest) = fnv_from (bit_xor (hash * 1099511628211 % 2 ^ 64) b) rest

unfoldable pub fnvhash : String → ℕ
unfolding fnv_from bytes
fnvhash key = fnv_from 14695981039346656037 (bytes key)

-- The end of a lease that was renewed at `renewed`.
unfoldable pub deadline : ℕ → Lease → ℕ
deadline renewed lease = renewed + or_default 0 lease.lease_duration_seconds * second

-- A round of the first loop: the holder of a lease whose deadline has not passed.
unfoldable pub live_holder : ℕ → ℕ → Lease → Option String
unfolding deadline
live_holder now renewed lease =
    if ltb (deadline renewed lease) now then none else lease.holder_identity

abbrev pub add_live : Option String → List String → List String
add_live none rest = rest
add_live (some holder) rest = holder ∷ rest

-- The first loop of `AssignedToThisReplica`.
unfoldable pub live_replicas : ℕ → List Lease → Option (List String)
unfolding live_holder
live_replicas now [] = some []
live_replicas now (lease ∷ leases) = do
  renewed ← lease.renew_time
  rest ← live_replicas now leases
  some (add_live (live_holder now renewed lease) rest)

-- `maxWeight` and `maxReplica`
pub record Best : Type 0 where
  pub weight : ℕ
  pub replica : String

-- One round of the second loop.
unfoldable pub consider : String → Best → String → Best
unfolding fnvhash concat str_ltb
consider item best replica =
    let weight = fnvhash (concat (item ∷ replica ∷ [])) in
    if best.replica == ""
    then record { weight = weight; replica = replica }
    else if ltb best.weight weight || (eqb weight best.weight && str_ltb replica best.replica)
    then record { weight = weight; replica = replica }
    else best

unfoldable pub consider_all : String → Best → List String → Best
consider_all item best [] = best
consider_all item best (replica ∷ rest) = consider_all item (consider item best replica) rest

-- `maxReplica` after the second loop; "" where no replica is live.
unfoldable pub max_replica : String → List String → String
unfolding consider consider_all
max_replica item replicas =
    (consider_all item (record { weight = 0; replica = "" }) replicas).replica

-- `leases` is what the lister returns, `none` for its error.
unfoldable pub assigned_to_this_replica : Hasher → ℕ → Option (List Lease) → String → Option Bool
unfolding live_replicas max_replica
assigned_to_this_replica h now none item = some false
assigned_to_this_replica h now (some leases) item = do
  replicas ← live_replicas now leases
  some (max_replica item replicas == h.replica_name)

pub data LeaseWrite : Type 0 where
  create : Lease → LeaseWrite
  update : Lease → LeaseWrite

unfoldable pub desired_lease : Hasher → ℕ → Lease
desired_lease h now = record {
  namespace = h.lease_namespace;
  name = h.replica_name;
  labels = (label_key, h.application_name) ∷ [];
  owner_uid = some h.replica_uid;
  holder_identity = some h.replica_name;
  lease_duration_seconds = some 15;
  acquire_time = some now;
  renew_time = some now;
  lease_transitions = some 1;
}

-- The write that `ensureLease` sends, or the message of its error before any write.
pub data Ensured : Type 0 where
  sends : LeaseWrite → Ensured
  stops : String → Ensured

unfoldable pub ensure_lease : Hasher → ℕ → Answer Lease → Ensured
unfolding desired_lease
ensure_lease h now not_found = sends (create (desired_lease h now))
ensure_lease h now (failed msg) = stops (concat ("while getting lease: " ∷ msg ∷ []))
ensure_lease h now (found lease) =
    let desired = desired_lease h now in
    sends (
      update (record lease {
        labels = desired.labels;
        owner_uid = desired.owner_uid;
        holder_identity = desired.holder_identity;
        lease_duration_seconds = desired.lease_duration_seconds;
        renew_time = desired.renew_time;
      }))
