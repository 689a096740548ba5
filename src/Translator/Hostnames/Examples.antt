-- ===== src/Translator/Hostnames/Examples.antt =====
-- Witnesses for the hostnames.
use kube_agentic_networking.Common.{◌≡◌, ◌≢◌, ◌↔◌, refl, inl, inr, true, false, [], has_prefix}
use kube_agentic_networking.Api.{http_route}
use kube_agentic_networking.Translator.Samples.{web, store_route}
use kube_agentic_networking.Translator.Hostnames.{
  is_hostname_subset, is_allowed_by_hostname, get_intersecting_hostnames,
}
use kube_agentic_networking.Translator.Hostnames.Covers.{
  Covers, is_hostname_subset-Covers, wildcard, wildcard-parent,
}
use kube_agentic_networking.Translator.Hostnames.Attached.{
  allowed_iff_configured, configured-Covers,
}

subset-Covers_example : Covers "*.example.com" "a.store.example.com"
unfolding is_hostname_subset
subset-Covers_example =
    is_hostname_subset-Covers "*.store.example.com" "*.example.com" refl refl "a.store.example.com"
      (inr (refl, refl))

wildcard-parent_example :
    (is_hostname_subset (wildcard "example.com") "example.com" ≡ true)
    × (is_hostname_subset "example.com" (wildcard "example.com") ≡ false)
unfolding has_prefix
wildcard-parent_example = wildcard-parent "example.com" refl

allowed_iff_configured_example :
    (is_allowed_by_hostname web (http_route store_route) ≡ true)
    ↔ (get_intersecting_hostnames (λ xs. xs) web store_route.hostnames ≢ [])
allowed_iff_configured_example =
    allowed_iff_configured (λ xs. xs) (λ x xs. (λ i. i, λ i. i)) web store_route

configured-Covers_example : Covers "*.example.com" "store.example.com"
unfolding get_intersecting_hostnames has_prefix
configured-Covers_example =
    configured-Covers (λ xs. xs) (λ x xs. (λ i. i, λ i. i)) web "*.example.com"
      store_route.hostnames refl (λ h. h) "store.example.com" "store.example.com" (inl refl)
      (inl refl)
