-- ===== src/Wire/Messages.antt =====
-- internal/wire/wire.go: the encoder and the decoder of each message.
use lacert.Prelude.{
  Bytes, Result, [], copy, drop, fail_if, length, ltb, not, ok, put_uint64, replicate, take, uint64,
  ℕ, ◌++◌, ◌+◌, ◌-◌, ◌>>=◌, ◌>>◌,
}
use lacert.Crypto.Primitives.{Blake3}
use lacert.Crypto.Messages.{
  HandshakeMsg1, HandshakeMsg2, HandshakeMsg3, RotationMsgV2, RotationAck, FirmwareResponse,
}
use lacert.Crypto.ControlTag.{control_tag_size, compute_control_tag, verify_control_tag}
use lacert.Wire.MessageType
use lacert.Wire.Frame.{WireError, unexpected_eof, payload_too_short, control_tag_mismatch}
use lacert.Wire.Field.{put_framed, take_framed}

unfoldable pub encode_msg1 : HandshakeMsg1 → Result WireError Bytes
encode_msg1 m = do buf ← put_framed [] m.device_id; put_framed (buf ++ m.nonce) m.identity_pub

unfoldable pub decode_msg1 : Bytes → Result WireError HandshakeMsg1
decode_msg1 payload = do
  id ← take_framed payload
  fail_if (ltb (length id.1) 32) unexpected_eof
  identity ← take_framed (drop 32 id.1)
  ok (record {
    device_id = id.0;
    nonce = copy (replicate 32 0) (take 32 id.1);
    identity_pub = identity.0;
  })

unfoldable pub encode_msg2 : HandshakeMsg2 → Result WireError Bytes
encode_msg2 m = do buf ← put_framed [] m.kem_ciphertext; ok (buf ++ m.gateway_nonce)

unfoldable pub decode_msg2 : Bytes → Result WireError HandshakeMsg2
decode_msg2 payload = do
  ct ← take_framed payload
  fail_if (ltb (length ct.1) 32) unexpected_eof
  ok (record { kem_ciphertext = ct.0; gateway_nonce = copy (replicate 32 0) (take 32 ct.1) })

unfoldable pub encode_msg3 : HandshakeMsg3 → Result WireError Bytes
encode_msg3 m = put_framed [] m.signature

unfoldable pub decode_msg3 : Bytes → Result WireError HandshakeMsg3
decode_msg3 payload = do sig ← take_framed payload; ok (record { signature = sig.0 })

unfoldable pub encode_rotation_v2_body : RotationMsgV2 → Result WireError Bytes
encode_rotation_v2_body m = put_framed (put_uint64 m.iteration) m.kem_ciphertext

unfoldable pub encode_rotation_v2 : Blake3 → RotationMsgV2 → Bytes → Result WireError Bytes
encode_rotation_v2 hash m session_key = do
  body ← encode_rotation_v2_body m
  ok (body ++ compute_control_tag hash session_key MessageType.rotation_v2 m.iteration body)

-- The tag is checked before the body is parsed.
unfoldable pub decode_rotation_v2 : Blake3 → Bytes → Bytes → Result WireError RotationMsgV2
decode_rotation_v2 hash payload session_key =
    let split = length payload - control_tag_size in
    let body = take split payload in
    let tag = drop split payload in
    let iteration = uint64 (take 8 body) in
    do
      fail_if (ltb (length payload) (8 + control_tag_size)) payload_too_short
      fail_if (not (verify_control_tag hash session_key MessageType.rotation_v2 iteration body tag))
          control_tag_mismatch
      ct ← take_framed (drop 8 body)
      ok (record { iteration = iteration; kem_ciphertext = ct.0 })

unfoldable pub encode_rotation_ack : Blake3 → RotationAck → Bytes → Bytes
encode_rotation_ack hash a session_key =
    let body = put_uint64 a.iteration in
    body ++ compute_control_tag hash session_key MessageType.rotation_ack a.iteration body

-- What follows the tag is not looked at.
unfoldable pub decode_rotation_ack : Blake3 → Bytes → Bytes → Result WireError RotationAck
decode_rotation_ack hash payload session_key =
    let body = take 8 payload in
    let tag = take control_tag_size (drop 8 payload) in
    let iteration = uint64 (take 8 body) in
    do
      fail_if (ltb (length payload) (8 + control_tag_size)) payload_too_short
      fail_if
          (not (verify_control_tag hash session_key MessageType.rotation_ack iteration body tag))
          control_tag_mismatch
      ok (record { iteration = iteration })

unfoldable pub encode_data : Bytes → Bytes → Result WireError Bytes
encode_data nonce ciphertext = do buf ← put_framed [] nonce; put_framed buf ciphertext

unfoldable pub decode_data : Bytes → Result WireError (Bytes × Bytes)
decode_data payload = do
  nonce ← take_framed payload
  ciphertext ← take_framed nonce.1
  ok (nonce.0, ciphertext.0)

unfoldable pub encode_firmware_challenge : Bytes → Result WireError Bytes
encode_firmware_challenge challenge = put_framed [] challenge

unfoldable pub decode_firmware_challenge : Bytes → Result WireError Bytes
decode_firmware_challenge payload = do challenge ← take_framed payload; ok challenge.0

abbrev pub firmware_hash_size : ℕ
firmware_hash_size = 32

unfoldable pub encode_firmware_response : FirmwareResponse → Result WireError Bytes
encode_firmware_response r = put_framed r.firmware_hash r.signature

unfoldable pub decode_firmware_response : Bytes → Result WireError FirmwareResponse
decode_firmware_response payload = do
  fail_if (ltb (length payload) firmware_hash_size) unexpected_eof
  sig ← take_framed (drop firmware_hash_size payload)
  ok (record {
    firmware_hash = copy (replicate firmware_hash_size 0) (take firmware_hash_size payload);
    signature = sig.0;
  })
