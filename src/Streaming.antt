-- ===== src/Streaming.antt =====
-- streaming/*.go: the connection broker, client connections, the streamer with its upstream client,
-- and the static proxy.
pub mod Acl
pub mod Connection
pub mod Streamer
pub mod Service
pub mod Fleet
pub mod Client
pub mod Relay
pub mod Proxy
