-- ===== src/Examples.antt =====
-- The theorems at concrete inputs, with stand-ins for the cryptographic libraries, and test runs.
mod Toy
mod CryptoRuns
mod WireRuns
mod StoreRuns
mod Fixtures
mod GatewayRuns
mod DeviceRuns
mod ServerRuns
mod SchedulerRuns
