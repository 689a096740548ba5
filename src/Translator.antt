-- ===== src/Translator.antt =====
-- The translation of Gateways to Envoy's configuration: pkg/translator.
pub mod Env
pub mod Hostnames
pub mod Envoy
pub mod Matches
pub mod Attachment
pub mod Backends
pub mod Rbac
pub mod Routes
pub mod ExtAuthz
pub mod Conditions
pub mod Conflicts
pub mod FilterChains
pub mod Snapshot
pub mod Samples
pub mod SampleSort
pub mod SampleConditions
