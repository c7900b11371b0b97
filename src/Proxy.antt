-- ===== src/Proxy.antt =====
-- The proxy service (internal/proxy, pkg/body, pkg/hash).
pub mod Segment
pub mod Choice
pub mod Headers
pub mod Http
pub mod Forwarder
pub mod Auth
pub mod Body
pub mod Output
pub mod Inject
pub mod Records
pub mod Handler
mod Tests
mod PartTests
