-- ===== src/Examples/WireRuns.antt =====
-- The theorems on the wire format at concrete inputs.
use lacert.Prelude.{
  Bytes, [], arith, err, ok, put_uint32, put_uint64, refl, take, uint64, ◌++◌, ◌>>=◌, ◌∷◌, ◌≡◌,
}
use lacert.Examples.Toy.{toy_hash, key_a, memory_writer, memory_stream}
use lacert.Crypto.Messages.{
  HandshakeMsg1, HandshakeMsg2, HandshakeMsg3, RotationMsgV2, RotationAck, FirmwareResponse,
}
use lacert.Crypto.ControlTag.{compute_control_tag, control_tag_input, verify_control_tag}
use lacert.Wire.MessageType
use lacert.Wire.Field.{take_framed}
use lacert.Wire.Frame.{eof, write_frame}
use lacert.Wire.Messages.{
  encode_msg1, decode_msg1, encode_msg2, decode_msg2, encode_msg3, decode_msg3, decode_rotation_v2,
  encode_data, decode_data, encode_firmware_response, decode_firmware_response,
}
use lacert.Wire.RoundTrip.{decode-encode_handshake, decode-encode_traffic}
use lacert.Wire.Authentic.{decode_rotation_v2_authentic}
use lacert.Wire.Stream.{write_frames, read_frames, stream_of, read_frames-write_frames}

abbrev word : Bytes
word = 1 ∷ 2 ∷ 3 ∷ []

abbrev msg1 : HandshakeMsg1
msg1 = record { device_id = word; nonce = key_a; identity_pub = word }

abbrev msg2 : HandshakeMsg2
msg2 = record { kem_ciphertext = word; gateway_nonce = key_a }

abbrev msg3 : HandshakeMsg3
msg3 = record { signature = word }

abbrev response : FirmwareResponse
response = record { firmware_hash = key_a; signature = word }

abbrev rotation : RotationMsgV2
rotation = record { iteration = 1; kem_ciphertext = word }

abbrev ack : RotationAck
ack = record { iteration = 1 }

decode-encode_handshake_example :
    ((encode_msg1 msg1 >>= decode_msg1) ≡ ok msg1)
    × ((encode_msg2 msg2 >>= decode_msg2) ≡ ok msg2)
    × ((encode_msg3 msg3 >>= decode_msg3) ≡ ok msg3)
decode-encode_handshake_example =
    decode-encode_handshake msg1 msg2 msg3 (omega arith, omega arith, omega arith, omega arith)
      (refl, refl)

decode-encode_traffic_example :
    ((encode_data word key_a >>= decode_data) ≡ ok (word, key_a))
    × ((encode_firmware_response response >>= decode_firmware_response) ≡ ok response)
decode-encode_traffic_example =
    decode-encode_traffic word key_a response (omega arith, omega arith, omega arith) refl

abbrev rotation_body : Bytes
rotation_body = put_uint64 1 ++ (0 ∷ 3 ∷ word)

abbrev rotation_payload : Bytes
rotation_payload =
    rotation_body ++ compute_control_tag toy_hash key_a MessageType.rotation_v2 1 rotation_body

rotation_payload_decodes : decode_rotation_v2 toy_hash rotation_payload key_a ≡ ok rotation
unfolding decode_rotation_v2 verify_control_tag compute_control_tag control_tag_input put_uint64
    take_framed
rotation_payload_decodes = refl

decode_rotation_v2_authentic_example :
    (body : Bytes) × (rotation_payload
      ≡ body ++ compute_control_tag toy_hash key_a MessageType.rotation_v2 1 body)
    × (1 ≡ uint64 (take 8 body))
decode_rotation_v2_authentic_example =
    decode_rotation_v2_authentic toy_hash key_a rotation_payload rotation rotation_payload_decodes

two_frames_written :
    write_frames memory_writer memory_stream [] ((6, word) ∷ (7, []) ∷ [])
    ≡ ok (stream_of ((6, word) ∷ (7, []) ∷ []))
unfolding write_frames write_frame put_uint32
two_frames_written = refl

read_frames-write_frames_example :
    (read_frames 2 (stream_of ((6, word) ∷ (7, []) ∷ [])) ≡ ok ((6, word) ∷ (7, []) ∷ [], []))
    × (read_frames 3 (stream_of ((6, word) ∷ (7, []) ∷ [])) ≡ err eof)
read_frames-write_frames_example =
    read_frames-write_frames memory_writer memory_stream [] (stream_of ((6, word) ∷ (7, []) ∷ []))
      ((6, word) ∷ (7, []) ∷ []) refl two_frames_written
