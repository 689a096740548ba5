-- ===== src/Signer/Examples.antt =====
-- Tests and witnesses of the signer.
use kube_agentic_networking.Common.{
  ℕ, ◌+◌, ◌-◌, ◌*◌, ◌<◌, refl, ◌≡◌, ◌≢◌, ◌⊎◌, String, List, [], ◌∷◌, Option, some, none, true, In,
  any, All, eq_iff, arith,
}
use kube_agentic_networking.Api.{got, found}
use kube_agentic_networking.Rendezvous.{Hasher, Lease, live_replicas}
use kube_agentic_networking.Signer.{
  Impl, PodCertificateRequest, hour, minute, is_settled, make_cert, handle_pcr, not_mine,
  nothing_to_do, issued_condition,
}
use kube_agentic_networking.Signer.Bounds.{IsValid, make_cert-IsValid}
use kube_agentic_networking.Signer.Queue.{
  Worked, forget, add_rate_limited, finish, process_next_work_item, process_next_work_item-kept,
  handle_pcr-once,
}

abbrev sample_signer : Impl
sample_signer = record {
  spiffe_trust_domain = "cluster.local";
  cas =
      record { root_certificate = "root"; signing_key = "key"; intermediate_certificates = [] }
      ∷ [];
  parse_public_key = λ s. got s;
  create_certificate = λ t root key signing. got "cert";
  pem_encode = λ s. s;
}

abbrev request : PodCertificateRequest
request = record {
  namespace = "shop";
  name = "pod";
  signer_name = "kube-agentic-networking.sigs.k8s.io/identity";
  service_account_name = "agent";
  max_expiration_seconds = some 3600;
  pkix_public_key = "public";
  conditions = [];
  certificate_chain = "";
  not_before = none;
  begin_refresh_at = none;
  not_after = none;
}

-- A day past the zero time.
abbrev clock : ℕ
clock = 24 * hour

abbrev certified : PodCertificateRequest
certified = record request {
  conditions = issued_condition ∷ [];
  certificate_chain = "cert";
  not_before = some (clock - 2 * minute);
  begin_refresh_at = some (clock - 2 * minute + hour - 12 * hour);
  not_after = some (clock - 2 * minute + hour);
}

request-certified : make_cert sample_signer clock request ≡ some (got certified)
unfolding make_cert
request-certified = refl

make_cert-IsValid_example :
    (seconds : ℕ) × (start : ℕ) × (refresh : ℕ) × (end : ℕ) × (some 3600 ≡ some seconds)
    × (certified.not_before ≡ some start)
    × (certified.begin_refresh_at ≡ some refresh)
    × (certified.not_after ≡ some end)
    × (seconds < 2147483648 → IsValid clock seconds start refresh end)
make_cert-IsValid_example =
    make_cert-IsValid sample_signer clock request certified request-certified (omega arith)

abbrev replica : String → Hasher
replica name = record {
  lease_namespace = "system";
  application_name = "controller";
  replica_name = name;
  replica_uid = "uid";
}

abbrev only_lease : Lease
only_lease = record {
  namespace = "system";
  name = "a";
  labels = [];
  owner_uid = none;
  holder_identity = some "a";
  lease_duration_seconds = some 15;
  acquire_time = some 0;
  renew_time = some 0;
  lease_transitions = some 1;
}

only_lease-live : live_replicas 7 (only_lease ∷ []) ≡ some ("a" ∷ [])
unfolding live_replicas
only_lease-live = refl

abbrev issued : Worked
issued = record { written = some certified; steps = forget ∷ finish ∷ [] }

request-worked :
    process_next_work_item sample_signer
      (replica "a")
      7
      (some (only_lease ∷ []))
      clock
      (λ p. none)
      (some ("shop", "pod"))
      (λ namespace name. found request)
    ≡ some issued
unfolding process_next_work_item
request-worked = refl

process_next_work_item-kept_example :
    ((new : PodCertificateRequest) × (some certified ≡ some new)
      × (any is_settled new.conditions ≡ true)
      × (◌≡◌ {A = Option String} none none)
      × In forget issued.steps)
    ⊎ In add_rate_limited issued.steps
process_next_work_item-kept_example =
    process_next_work_item-kept sample_signer (replica "a") 7 (some (only_lease ∷ [])) clock
      (λ p. none) "shop" "pod" (λ namespace name. found request) request issued refl (refl, refl)
      request-worked

a-named : All {A = String} (λ r. r ≢ "") ("a" ∷ [])
a-named = (λ e. let g = (eq_iff "a" "").1 e in cc, tt)

handle_pcr-once_example :
    (r : String) × In r ("a" ∷ [])
    × ((h : Hasher)
        → (h.replica_name ≡ r
            → handle_pcr sample_signer h 7 (some (only_lease ∷ [])) clock (λ p. none) request
              ≡ some (record { written = some certified; returned = none }))
          × (h.replica_name ≢ r
              → handle_pcr sample_signer h 7 (some (only_lease ∷ [])) clock (λ p. none) request
                ≡ some not_mine)
          × ((l : Option (List Lease)) (at later : ℕ)
              → handle_pcr sample_signer h at l later (λ p. none) certified ≡ some nothing_to_do))
handle_pcr-once_example =
    handle_pcr-once sample_signer 7 (only_lease ∷ []) ("a" ∷ []) clock (λ p. none) request certified
      only_lease-live (λ e. cc) a-named (refl, refl) request-certified
