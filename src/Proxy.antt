-- ===== src/Proxy.antt =====
-- The Envoy proxies of Gateways: pkg/infra/envoy. `Rendering` builds their objects, `Ensuring` creates those
-- that are missing and `Deletion` deletes them.
pub mod Rendering
pub mod Ensuring
pub mod Deletion
pub mod Kept
pub mod Restored
mod Examples
