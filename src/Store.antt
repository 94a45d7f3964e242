-- ===== src/Store.antt =====
-- internal/store: the registry of devices, the event journal, telemetry and the rotation log.
pub mod Types
pub mod Calls
pub mod MemStore
