-- ===== src/Signer.antt =====
-- The signer of pod certificates: pkg/infra/agentidentity/signercontroller/signercontroller.go and
-- pkg/infra/agentidentity/agenticidentitysigner/agenticidentitysigner.go.
--
-- Times are nanoseconds since Go's zero time, in the year 1, and durations nanoseconds; the clock is
-- later than that by more than what is subtracted from it. A number of type int64 is its residue
-- modulo 2^64. `ParsePKIXPublicKey`, `CreateCertificate` and the PEM encoding are parameters, the pool of
-- certificate authorities an argument. A nil dereference or an index out of range, which stops the
-- program, is `none`.
pub mod Bounds
pub mod Queue
pub mod Bundles
mod Examples
use kube_agentic_networking.Common.{
  ℕ, ◌+◌, ◌-◌, ◌*◌, ◌%◌, ◌^◌, String, Bool, true, false, not, ◌||◌, Option, none, some, List, [],
  ◌∷◌, ◌==◌, ltb, any, map, if◌then◌else◌, ◌>>=◌, concat,
}
use kube_agentic_networking.Api.{Condition, Got, got, error, Answer, found, not_found, failed}
use kube_agentic_networking.Rendezvous.{Hasher, Lease, second, assigned_to_this_replica}

abbrev pub signer_name : String
signer_name = "kube-agentic-networking.sigs.k8s.io/identity"

-- The fields of a `certsv1beta1.PodCertificateRequest` that the program reads or writes.
pub record PodCertificateRequest : Type 0 where
  pub namespace : String
  pub name : String
  pub signer_name : String
  pub service_account_name : String
  pub max_expiration_seconds : Option ℕ
  pub pkix_public_key : String
  pub conditions : List Condition
  pub certificate_chain : String
  pub not_before : Option ℕ
  pub begin_refresh_at : Option ℕ
  pub not_after : Option ℕ

pub record Ca : Type 0 where
  pub root_certificate : String
  pub signing_key : String
  pub intermediate_certificates : List String

-- The fields of a url.URL that the program sets.
pub record Url : Type 0 where
  pub scheme : String
  pub host : String
  pub path : String

-- The fields of the `x509.Certificate` that MakeCert fills; the uses of its key are constants.
pub record Template : Type 0 where
  pub not_before : ℕ
  pub not_after : ℕ
  pub uri : Url

pub record Impl : Type 0 where
  pub spiffe_trust_domain : String
  pub cas : List Ca
  pub parse_public_key : String → Got String
  pub create_certificate : Template → (root public_key signing_key : String) → Got String
  pub pem_encode : String → String

abbrev pub minute : ℕ
minute = 60 * second

abbrev pub hour : ℕ
hour = 60 * minute

-- time.Duration(seconds) * time.Second
unfoldable pub requested_lifetime : ℕ → ℕ
requested_lifetime seconds = seconds * second % 2 ^ 64

unfoldable pub lifetime : ℕ → ℕ
unfolding requested_lifetime
lifetime seconds =
    if ltb (requested_lifetime seconds) (24 * hour) then requested_lifetime seconds else 24 * hour

-- path.Join of names. Empty elements are left out; the elements are names of Kubernetes objects, which have
-- no slash and are not "." or "..", so that cleaning the path changes nothing else.
abbrev pub join_path : List String → String
join_path [] = ""
join_path (s ∷ parts) =
    let rest = join_path parts in
    if s == "" then rest else if rest == "" then s else concat (s ∷ "/" ∷ rest ∷ [])

unfoldable pub spiffe_uri : Impl → PodCertificateRequest → Url
unfolding concat
spiffe_uri s pcr = record {
  scheme = "spiffe";
  host = s.spiffe_trust_domain;
  path = join_path ("ns" ∷ pcr.namespace ∷ "sa" ∷ pcr.service_account_name ∷ []);
}

abbrev pub issued_condition : Condition
issued_condition = record {
  type = "Issued";
  status = "True";
  reason = "Issued";
  message = "Successfully issued";
  observed_generation = 0;
}

-- The status of a certificate with the given validity.
abbrev pub with_certificate : PodCertificateRequest → Template → String → PodCertificateRequest
with_certificate pcr template chain = record pcr {
  conditions = issued_condition ∷ [];
  certificate_chain = chain;
  not_before = some template.not_before;
  begin_refresh_at = some (template.not_after - 12 * hour);
  not_after = some template.not_after;
}

unfoldable pub template_of : Impl → ℕ → PodCertificateRequest → ℕ → Template
unfolding lifetime spiffe_uri
template_of s now pcr seconds = record {
  not_before = now - 2 * minute;
  not_after = now - 2 * minute + lifetime seconds;
  uri = spiffe_uri s pcr;
}

-- What is done with the answer of CreateCertificate, and before that with the public key.
abbrev pub encode_chain :
    Impl → PodCertificateRequest → Template → Ca → Got String → Got PodCertificateRequest
encode_chain s pcr template ca (error msg) =
    error (concat ("while signing subject cert: " ∷ msg ∷ []))
encode_chain s pcr template ca (got der) =
    got (
      with_certificate pcr template
        (concat (map s.pem_encode (der ∷ ca.intermediate_certificates))))

abbrev pub sign :
    Impl
    → PodCertificateRequest
    → Template
    → List Ca
    → Got String
    → Option (Got PodCertificateRequest)
sign s pcr template cas (error msg) =
    some (error (concat ("while parsing PKIX public key: " ∷ msg ∷ [])))
sign s pcr template [] (got key) = none
sign s pcr template (ca ∷ cas) (got key) = some (
    encode_chain s pcr template ca
      (s.create_certificate template ca.root_certificate key ca.signing_key))

-- MakeCert
unfoldable pub make_cert : Impl → ℕ → PodCertificateRequest → Option (Got PodCertificateRequest)
unfolding template_of concat
make_cert s now pcr = do
  seconds ← pcr.max_expiration_seconds
  sign s pcr (template_of s now pcr seconds) s.cas (s.parse_public_key pcr.pkix_public_key)

-- The error of handlePCR.
pub data Failure : Type 0 where
  err_not_assigned : Failure
  fails_with : String → Failure

-- The request whose status is written, and the error that is returned.
pub record Handled : Type 0 where
  pub written : Option PodCertificateRequest
  pub returned : Option Failure

abbrev pub nothing_to_do : Handled
nothing_to_do = record { written = none; returned = none }

abbrev pub not_mine : Handled
not_mine = record { written = none; returned = some err_not_assigned }

abbrev pub is_settled : Condition → Bool
is_settled c = c.type == "Issued" || (c.type == "Denied" || c.type == "Failed")

abbrev pub status_update_error : Option String → Option Failure
status_update_error none = none
status_update_error (some msg) =
    some (fails_with (concat ("while updating PodCertificateRequest: " ∷ msg ∷ [])))

-- The write of the new status; `answer` is the error of the API server.
abbrev pub write_status :
    (PodCertificateRequest → Option String) → Got PodCertificateRequest → Handled
write_status answer (error msg) = record {
  written = none;
  returned = some (
      fails_with
        (concat ("while converting PodCertificateRequest to x509.Certificate chain: " ∷ msg ∷ [])));
}
write_status answer (got new) = record {
  written = some new;
  returned = status_update_error (answer new);
}

abbrev pub if_assigned :
    (PodCertificateRequest → Option String)
    → Option (Got PodCertificateRequest)
    → Bool
    → Option Handled
if_assigned answer made false = some not_mine
if_assigned answer made true = do result ← made; some (write_status answer result)

abbrev pub item_of : PodCertificateRequest → String
item_of pcr = concat (pcr.namespace ∷ "/" ∷ pcr.name ∷ [])

-- handlePCR: `h`, `leases` and `read_at` are the hasher and what it reads, `now` the signer's clock.
unfoldable pub handle_pcr :
    Impl
    → Hasher
    → ℕ
    → Option (List Lease)
    → ℕ
    → (PodCertificateRequest → Option String)
    → PodCertificateRequest
    → Option Handled
unfolding make_cert assigned_to_this_replica concat
handle_pcr s h read_at leases now answer pcr =
    if not (pcr.signer_name == signer_name)
    then some nothing_to_do
    else if any is_settled pcr.conditions
    then some nothing_to_do
    else (do
      assigned ← assigned_to_this_replica h read_at leases (item_of pcr)
      if_assigned answer (make_cert s now pcr) assigned)
