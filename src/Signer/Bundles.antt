-- ===== src/Signer/Bundles.antt =====
-- The trust bundles: DesiredClusterTrustBundles of
-- pkg/infra/agentidentity/agenticidentitysigner/agenticidentitysigner.go and ensureBundle of
-- pkg/infra/agentidentity/signercontroller/signercontroller.go.
--
-- The answers of the API server are arguments, `apiequality.Semantic.DeepEqual` of two maps of labels and
-- of two specifications are parameters, and a round returns the writes that it sends, in order.
use kube_agentic_networking.Common.{
  ℕ, String, Bool, true, false, ◌&&◌, Option, none, some, List, [], ◌∷◌, map, if◌then◌else◌, ◌>>=◌,
  concat,
}
use kube_agentic_networking.Api.{Answer, found, not_found, failed}
use kube_agentic_networking.Rendezvous.{Hasher, Lease, assigned_to_this_replica}
use kube_agentic_networking.Signer.{Impl, signer_name}

pub record BundleSpec : Type 0 where
  pub signer_name : String
  pub trust_bundle : String

pub record ClusterTrustBundle : Type 0 where
  pub name : String
  pub labels : List (String × String)
  pub spec : BundleSpec

-- CTBLabels
unfoldable pub ctb_labels : String → List (String × String)
ctb_labels trust_domain =
    ("kube-agentic-networking.sigs.k8s.io/canarying", "live")
    ∷ ("kube-agentic-networking.sigs.k8s.io/workload-trust-domain", trust_domain)
    ∷ ("kube-agentic-networking.sigs.k8s.io/peer-trust-domain", trust_domain)
    ∷ []

unfoldable pub desired_cluster_trust_bundles : Impl → List ClusterTrustBundle
unfolding ctb_labels concat
desired_cluster_trust_bundles s =
    record {
      name = "kube-agentic-networking.sigs.k8s.io:identity:primary-bundle";
      labels = ctb_labels s.spiffe_trust_domain;
      spec = record {
        signer_name = signer_name;
        trust_bundle = concat (map (λ ca. s.pem_encode ca.root_certificate) s.cas);
      };
    }
    ∷ []

pub data BundleWrite : Type 0 where
  create_bundle update_bundle : ClusterTrustBundle → BundleWrite

module _ (same_labels : List (String × String) → List (String × String) → Bool)
    (same_spec : BundleSpec → BundleSpec → Bool) (get : String → Answer ClusterTrustBundle)
    (update_answer : ClusterTrustBundle → Option String) where
  -- The bundle that the update sends.
  abbrev pub corrected : ClusterTrustBundle → ClusterTrustBundle → ClusterTrustBundle
  corrected want ctb = record ctb {
    labels = want.labels;
    spec = record ctb.spec { trust_bundle = want.spec.trust_bundle };
  }

  -- The rest of the loop is reached only by an update that succeeds.
  abbrev pub after_update : List BundleWrite → Option String → List BundleWrite
  after_update rest none = rest
  after_update rest (some msg) = []

  abbrev pub ensure_one :
      List BundleWrite → ClusterTrustBundle → Answer ClusterTrustBundle → List BundleWrite
  ensure_one rest want not_found = create_bundle want ∷ []
  ensure_one rest want (failed msg) = []
  ensure_one rest want (found ctb) =
      if same_labels want.labels ctb.labels && same_spec want.spec ctb.spec
      then []
      else update_bundle (corrected want ctb)
        ∷ after_update rest (update_answer (corrected want ctb))

  -- The loop of ensureBundle.
  unfoldable pub ensure_all : List ClusterTrustBundle → List BundleWrite
  ensure_all [] = []
  ensure_all (want ∷ wants) = ensure_one (ensure_all wants) want (get want.name)

  abbrev pub if_maintainer : Impl → Bool → Option (List BundleWrite)
  if_maintainer s false = some []
  if_maintainer s true = some (ensure_all (desired_cluster_trust_bundles s))

  unfoldable pub ensure_bundle : Impl → Hasher → ℕ → Option (List Lease) → Option (List BundleWrite)
  unfolding ensure_all assigned_to_this_replica desired_cluster_trust_bundles
  ensure_bundle s h read_at leases = do
    maintains ← assigned_to_this_replica h read_at leases "maintain-trust-bundles"
    if_maintainer s maintains
