-- ===== src/Proxy.antt =====
-- GatewayProxy of internal/proxy/proxy.go.
mod Recorder
mod Jitter
mod Defs
mod Pipeline
mod Admission
mod Admin
pub mod Keyed
pub mod Delays
pub mod Guards
pub mod Outcomes
pub mod Routes
unfoldable pub use Recorder.*
unfoldable pub use Jitter.*
unfoldable pub use Defs.*
unfoldable pub use Pipeline.*
unfoldable pub use Admission.*
unfoldable pub use Admin.*
