-- ===== src/Tunnel.antt =====
-- internal/tunnel: the self-hosted relay.
pub mod Relay
pub mod Client
pub mod Bore
mod Tests
