-- ===== src/Wire.antt =====
-- internal/wire: frames, fields and the encoding of each message.
pub mod MessageType
pub mod Frame
pub mod Field
pub mod Messages
pub mod RoundTrip
pub mod Authentic
pub mod Stream
