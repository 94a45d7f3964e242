-- ===== src/Gateway.antt =====
-- internal/gateway: what the gateway does with a device, over any store.
pub mod Metrics
pub mod State
pub mod Lifecycle
pub mod Registration
pub mod Handshakes
pub mod Rotations
pub mod Traffic
pub mod Revocation
pub mod Connections
pub mod Entry
pub mod Arrivals
pub mod Replays
pub mod Verdicts
pub mod Shutdown
pub mod Answers
