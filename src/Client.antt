-- ===== src/Client.antt =====
-- src/client: the client, its UDP clients, its session over one connection, and its retries.
pub mod Errors
mod Examples
pub mod Handlers
pub mod MainLoop
pub mod Maps
pub mod Running
pub mod Session
pub mod WsConnect
