-- ===== src/Network/Transport.antt =====
-- default_http_transport::send_request_to_server of
-- src/barq_native/internal/networking/network_transport.cpp. Core's sockets, resolver, TLS and HTTP
-- client are a parameter, `World`: a function for each call, with its answer.
pub mod World
pub mod Model
pub mod Requests
pub mod Sending
pub mod Tests
pub use World.*
pub use Model.*
