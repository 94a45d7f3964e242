-- ===== src/Crypto/Messages.antt =====
-- The protocol's messages: internal/crypto/handshake.go, replay.go, rotation_atomic.go, firmware.go.
-- The arrays `[32]byte` are byte strings here, and their length is a hypothesis where it matters.
use lacert.Prelude.{ℕ, Bytes}

pub record HandshakeMsg1 : Type 0 where
  pub device_id : Bytes
  pub nonce : Bytes
  pub identity_pub : Bytes

pub record HandshakeMsg2 : Type 0 where
  pub kem_ciphertext : Bytes
  pub gateway_nonce : Bytes

pub record HandshakeMsg3 : Type 0 where
  pub signature : Bytes

pub record RotationMsgV2 : Type 0 where
  pub iteration : ℕ  -- uint64
  pub kem_ciphertext : Bytes

pub record RotationAck : Type 0 where
  pub iteration : ℕ  -- uint64

pub record FirmwareResponse : Type 0 where
  pub firmware_hash : Bytes
  pub signature : Bytes
