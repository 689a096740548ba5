-- ===== src/Proxy/Rendering.antt =====
-- The objects of a proxy: pkg/infra/envoy/resourcerender.go, with NewResourceManager and proxyName of
-- pkg/infra/envoy/proxy.go.
--
-- The hexadecimal digits of the first six bytes of a SHA-256 digest, and text/template, are parameters. Of an owner reference the kind and the name are kept.
use kube_agentic_networking.Common.{
  ℕ, String, Bool, true, Option, none, some, List, [], ◌∷◌, leb, if◌then◌else◌, ◌==◌, ◌||◌, concat,
  decimal, lookup, insert, values, nat_eq,
}
use kube_agentic_networking.Api.{Got, got, error, Listener, Gateway}
use kube_agentic_networking.Signer.{signer_name}
use kube_agentic_networking.Signer.Bundles.{ctb_labels}

pub record OwnerReference : Type 0 where
  pub kind : String
  pub name : String

pub record ProxyMeta : Type 0 where
  pub name : String
  pub namespace : String
  pub labels : List (String × String)
  pub owners : List OwnerReference

pub record ServiceAccount : Type 0 where
  pub meta : ProxyMeta

pub record ConfigMap : Type 0 where
  pub meta : ProxyMeta
  pub contents : List (String × String)

pub record VolumeMount : Type 0 where
  pub name : String
  pub mount_path : String
  pub read_only : Bool

-- The keys of a ConfigMap with their paths, or a trust bundle and a certificate of the signer.
pub data VolumeSource : Type 0 where
  config_map : (name : String) (items : List (String × String)) → VolumeSource
  projected :
      (bundle_signer : String) (match_labels : List (String × String)) (bundle_path : String)
      (certificate_signer key_type credential_path : String)
      → VolumeSource

pub record Volume : Type 0 where
  pub name : String
  pub source : VolumeSource

pub record Deployment : Type 0 where
  pub meta : ProxyMeta
  pub replicas : ℕ
  pub match_labels : List (String × String)
  pub pod_labels : List (String × String)
  pub service_account_name : String
  pub image : String
  pub command : List String
  pub volume_mounts : List VolumeMount
  pub volumes : List Volume

pub record ServicePort : Type 0 where
  pub name : String
  pub port : ℕ
  pub protocol : String

pub record ProxyService : Type 0 where
  pub meta : ProxyMeta
  pub selector : List (String × String)
  pub ports : List ServicePort
  pub cluster_ip : String

-- The client is left out.
pub record ResourceManager : Type 0 where
  pub gw : Gateway
  pub node_id : String
  pub envoy_image : String
  pub agentic_identity_trust_domain : String

unfoldable pub proxy_name : (String → String) → String → String → String
unfolding concat
proxy_name digest namespace name =
    concat ("envoy-proxy-" ∷ digest (concat (namespace ∷ "/" ∷ name ∷ [])) ∷ [])

unfoldable pub new_resource_manager :
    (String → String) → Gateway → String → String → ResourceManager
unfolding proxy_name
new_resource_manager digest gw image trust_domain = record {
  gw = gw;
  node_id = proxy_name digest gw.meta.namespace gw.meta.name;
  envoy_image = image;
  agentic_identity_trust_domain = trust_domain;
}

abbrev pub gateway_label : Gateway → List (String × String)
gateway_label gw = ("kube-agentic-networking.sigs.k8s.io/gateway-name", gw.meta.name) ∷ []

abbrev pub meta_for : ResourceManager → List (String × String) → ProxyMeta
meta_for r labels = record {
  name = r.node_id;
  namespace = r.gw.meta.namespace;
  labels = labels;
  owners = record { kind = "Gateway"; name = r.gw.meta.name } ∷ [];
}

unfoldable pub render_service_account : ResourceManager → ServiceAccount
render_service_account r = record { meta = meta_for r (gateway_label r.gw) }

abbrev pub trust_bundle_file : String → String
trust_bundle_file trust_domain = concat (trust_domain ∷ "." ∷ "trust-bundle.pem" ∷ [])

abbrev pub certificate_volume : ResourceManager → Volume
certificate_volume r = record {
  name = "envoy-identity-mtls";
  source =
      projected signer_name (ctb_labels r.agentic_identity_trust_domain)
        (trust_bundle_file r.agentic_identity_trust_domain) signer_name "ECDSAP256"
        "credential-bundle.pem";
}

abbrev pub read_only_mount : String → String → VolumeMount
read_only_mount name path = record { name = name; mount_path = path; read_only = true }

unfoldable pub render_deployment : ResourceManager → Deployment
unfolding ctb_labels concat
render_deployment r = record {
  meta = meta_for r (gateway_label r.gw);
  replicas = 1;
  match_labels = gateway_label r.gw;
  pod_labels = ("app", r.node_id) ∷ gateway_label r.gw;
  service_account_name = r.node_id;
  image = r.envoy_image;
  command =
      "envoy"
      ∷ "-c"
      ∷ concat ("/etc/envoy/bootstrap" ∷ "/" ∷ "envoy.yaml" ∷ [])
      ∷ "--log-level"
      ∷ "debug"
      ∷ [];
  volume_mounts =
      read_only_mount "envoy-bootstrap-config" "/etc/envoy/bootstrap"
      ∷ read_only_mount "envoy-sds-config" "/etc/envoy/sds"
      ∷ read_only_mount "envoy-identity-mtls" "/run/gateway-identity-mtls"
      ∷ [];
  volumes =
      record {
        name = "envoy-bootstrap-config";
        source = config_map r.node_id (("envoy.yaml", "envoy.yaml") ∷ []);
      }
      ∷ record {
        name = "envoy-sds-config";
        source = config_map r.node_id (
            ("spiffe_identity.yaml", "spiffe_identity.yaml")
            ∷ ("spiffe_trust.yaml", "spiffe_trust.yaml")
            ∷ []);
      }
      ∷ certificate_volume r
      ∷ [];
}

abbrev pub service_port : Listener → ServicePort
service_port l = record { name = l.name; port = l.port; protocol = "TCP" }

-- portsMap: the first listener of a port names it.
abbrev pub collect_ports : List (ℕ × ServicePort) → List Listener → List (ℕ × ServicePort)
collect_ports m [] = m
collect_ports m (l ∷ ls) =
    collect_ports (elim (lookup l.port m) [ some _ ↦ m | none ↦ insert l.port (service_port l) m ])
      ls

-- sort.Slice by the ports, which are distinct, so that the order of iteration does not show.
abbrev pub insert_port : ServicePort → List ServicePort → List ServicePort
insert_port p [] = p ∷ []
insert_port p (q ∷ qs) =
    let later = insert_port p qs in if leb p.port q.port then p ∷ q ∷ qs else q ∷ later

abbrev pub sort_ports : List ServicePort → List ServicePort
sort_ports [] = []
sort_ports (p ∷ ps) = insert_port p (sort_ports ps)

unfoldable pub render_service : ResourceManager → ProxyService
unfolding lookup insert
render_service r = record {
  meta = meta_for r (gateway_label r.gw);
  selector = ("app", r.node_id) ∷ [];
  ports = sort_ports (values (collect_ports [] r.gw.listeners));
  cluster_ip = "";
}

-- text/template, for an embedded template and its data: the error of parsing it, and the text or the
-- error of executing it.
pub record Execute : Type 0 where
  pub parse : (template : String) → Option String
  pub run : (template : String) (fields : List (String × String)) → Got String

abbrev pub executed_config : Got String → Got String
executed_config (error msg) = error (concat ("error executing config template: " ∷ msg ∷ []))
executed_config (got text) = got text

abbrev pub parsed_config : Execute → String → List (String × String) → Option String → Got String
parsed_config execute template fields (some msg) =
    error (concat ("failed to parse config template: " ∷ msg ∷ []))
parsed_config execute template fields none = executed_config (execute.run template fields)

unfoldable pub generate_envoy_bootstrap_config : Execute → String → String → Got String
unfolding concat decimal
generate_envoy_bootstrap_config execute cluster id =
    if cluster == "" || id == ""
    then error "missing parameters for envoy config"
    else parsed_config execute "templates/bootstrap.yaml"
        (("Cluster", cluster)
          ∷ ("ID", id)
          ∷ (
            "ControlPlaneAddress",
            concat
                ("agentic-net-xds-server" ∷ "." ∷ "agentic-net-system" ∷ ".svc.cluster.local" ∷ []),
          )
          ∷ ("ControlPlanePort", decimal 15001)
          ∷ [])
        (execute.parse "templates/bootstrap.yaml")

abbrev pub parsed_sds : Execute → String → List (String × String) → Option String → Got String
parsed_sds execute template fields (some msg) = error msg
parsed_sds execute template fields none = execute.run template fields

unfoldable pub generate_sds_config : Execute → String → String → String → Got String
unfolding concat
generate_sds_config execute tmpl sds_config_name trust_domain =
    parsed_sds execute tmpl
      (("SdsConfigName", sds_config_name)
        ∷ ("SpiffeMountPath", "/run/gateway-identity-mtls")
        ∷ ("SpiffeCredentialBundleFileName", "credential-bundle.pem")
        ∷ ("SpiffeTrustBundleFileName", trust_bundle_file trust_domain)
        ∷ [])
      (execute.parse tmpl)

abbrev pub config_map_of : ResourceManager → String → String → String → ConfigMap
config_map_of r bootstrap identity trust = record {
  meta = meta_for r [];
  contents =
      ("envoy.yaml", bootstrap)
      ∷ ("spiffe_identity.yaml", identity)
      ∷ ("spiffe_trust.yaml", trust)
      ∷ [];
}

abbrev pub with_configs : ResourceManager → Got String → Got String → Got String → Got ConfigMap
with_configs r (error msg) identity trust = error msg
with_configs r (got bootstrap) (error msg) trust = error msg
with_configs r (got bootstrap) (got identity) (error msg) = error msg
with_configs r (got bootstrap) (got identity) (got trust) =
    got (config_map_of r bootstrap identity trust)

unfoldable pub render_config_map : Execute → ResourceManager → Got ConfigMap
unfolding generate_envoy_bootstrap_config generate_sds_config concat
render_config_map execute r =
    with_configs r
      (generate_envoy_bootstrap_config execute
        (concat (r.gw.meta.namespace ∷ "/" ∷ r.gw.meta.name ∷ [])) r.node_id)
      (generate_sds_config execute "templates/spiffe_identity.yaml" "spiffe_identity"
        r.agentic_identity_trust_domain)
      (generate_sds_config execute "templates/spiffe_trust.yaml" "spiffe_trust"
        r.agentic_identity_trust_domain)
