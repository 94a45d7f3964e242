-- ===== src/Transport.antt =====
-- internal/transport: the gateway's end of the connections, and the device's.
pub mod Network
pub mod Server
pub mod Connection
pub mod Requests
pub mod Table
pub mod Guards
pub mod Endings
pub mod Client
pub mod Meets
pub mod Turns
