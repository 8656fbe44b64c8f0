-- ===== src/Network.antt =====
-- The networking layer: src/barq_native/internal/networking and include/barq_native/networking.
pub mod Ipv4
pub mod Headers
pub mod Transport
pub mod Endpoint
pub mod Shims
mod ShimTests
