-- ===== src/Controller.antt =====
-- The controller that watches the resources: pkg/controller. Its finalizers and what depends on them.
pub mod Finalizers
pub mod Sync
pub mod Settles
pub mod Services
pub mod Programmed
pub mod Gateways
mod Examples
