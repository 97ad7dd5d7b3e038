-- ===== src/Proxy.antt =====
-- sushi-proxy/internal/gateway/sushi_proxy.go: how a matched request is passed to an upstream.
pub mod Framing
pub mod Path
pub mod Select
pub mod Transport
pub mod Pass
pub mod Steps
pub mod Attempts
pub mod Trips
pub mod Accounts
pub mod Chosen
pub mod Fresh
pub mod Forwarded
mod Tests
