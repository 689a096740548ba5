-- ===== src/Api.antt =====
-- The objects that the program reads and writes: the types of api/v0alpha0, and of the Gateway API
-- and Kubernetes those fields that the program uses. A nil pointer is `none`.
mod Meta
mod Gateways
mod Routes
mod Agentic
pub use Meta.*
pub use Gateways.*
pub use Routes.*
pub use Agentic.*
