-- ===== src/Server.antt =====
-- The penguin server of src/server: the HTTP service, the WebSocket loop, the forwarders, and the
-- certificates from an ACME server.
mod Examples
pub mod Acme
pub mod Forwarder
pub mod Listening
pub mod Service
pub mod WebSocket
