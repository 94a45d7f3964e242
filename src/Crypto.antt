-- ===== src/Crypto.antt =====
-- internal/crypto: sessions, rotation, replay protection, control tags.
pub mod Primitives
pub mod Messages
pub mod ControlTag
pub mod Session
pub mod ReplayGuard
pub mod Kem
pub mod Rotation
pub mod Signature
pub mod Handshake
pub mod Firmware
pub mod Packet
