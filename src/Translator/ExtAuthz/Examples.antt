-- ===== src/Translator/ExtAuthz/Examples.antt =====
-- Witnesses for the external authorization.
use kube_agentic_networking.Common.{concat, inl, or_default, String, ◌≡◌, refl, List, [], ◌∷◌, In}
use kube_agentic_networking.Api.{XAccessPolicy, AccessRule, got}
use kube_agentic_networking.Translator.Samples.{sample, policy_in, auth_rule, auth_filter}
use kube_agentic_networking.Translator.ExtAuthz.{
  build_ext_authz_config, ext_authz_filter, build_ext_authz_backend_clusters, ExtAuthz,
  build_ext_authz_filters,
}
use kube_agentic_networking.Translator.ExtAuthz.Services.{GoesTo}
use kube_agentic_networking.Translator.ExtAuthz.Clusters.{Has, build_ext_authz_filters-Backed}
use kube_agentic_networking.Translator.ExtAuthz.Unique.{
  Built, HasDigest, build_ext_authz_filters-Built,
}

abbrev two_policies : List XAccessPolicy
two_policies = policy_in "shop" auth_rule ∷ policy_in "bank" auth_rule ∷ []

build_ext_authz_filters-Built_example :
    (hs : List String) × (fs : List ExtAuthz) × (build_ext_authz_filters sample ≡ got fs)
    × Built sample two_policies hs fs
    × ((p : XAccessPolicy) (r : AccessRule) (hash : String)
        → In p two_policies
        → In r p.rules
        → HasDigest sample two_policies r hash
        → In hash hs)
build_ext_authz_filters-Built_example = build_ext_authz_filters-Built sample two_policies refl

abbrev shop_check : ExtAuthz
shop_check = or_default (build_ext_authz_config "") (ext_authz_filter "shop" auth_filter "c0ffee")

sample-checks : build_ext_authz_filters sample ≡ got (shop_check ∷ [])
unfolding build_ext_authz_filters
sample-checks = refl

shop_check-asks : GoesTo shop_check.services "authz.shop.svc.cluster.local-grpc:9000"
unfolding ext_authz_filter concat
shop_check-asks = refl

build_ext_authz_filters-Backed_example :
    Has (build_ext_authz_backend_clusters sample) "authz.shop.svc.cluster.local-grpc:9000"
build_ext_authz_filters-Backed_example =
    build_ext_authz_filters-Backed sample (shop_check ∷ []) sample-checks shop_check
      "authz.shop.svc.cluster.local-grpc:9000" (inl refl) shop_check-asks
