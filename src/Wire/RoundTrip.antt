-- ===== src/Wire/RoundTrip.antt =====
-- Decoding what was encoded gives the message back, for every message of internal/wire.
use lacert.Prelude.{
  Bytes, [], append-nil, append_assoc, arith, copy, copy_whole, drop, drop-append, fail_if, false,
  length, length-append, length-put_uint64, le→ltb, ltb, not, ok, put_uint16, put_uint64, refl,
  replicate, take, take-all, take-append, u64_mod, uint64, uint64-put_uint64, ◌++◌, ◌+◌, ◌-◌, ◌<◌,
  ◌>>=◌, ◌>>◌, ◌≡◌, ◌≤◌,
}
use lacert.Crypto.Primitives.{Blake3}
use lacert.Crypto.Messages.{
  HandshakeMsg1, HandshakeMsg2, HandshakeMsg3, RotationMsgV2, RotationAck, FirmwareResponse,
}
use lacert.Crypto.ControlTag.{
  control_tag_size, compute_control_tag, verify_control_tag, verify-compute,
  length-compute_control_tag,
}
use lacert.Wire.MessageType
use lacert.Wire.Frame.{control_tag_mismatch}
use lacert.Wire.Field.{
  max_field_size, take_framed, put_framed-fits, take_framed-put, take_framed-put_last,
}
use lacert.Wire.Messages.{
  encode_msg1, decode_msg1, encode_msg2, decode_msg2, encode_msg3, decode_msg3,
  encode_rotation_v2_body, encode_rotation_v2, decode_rotation_v2, encode_rotation_ack,
  decode_rotation_ack, encode_data, decode_data, encode_firmware_response, decode_firmware_response,
}

ruleset framing = (put_framed-fits, take_framed-put, append_assoc, append-nil)

abbrev pub Fits : Bytes → Type 0
Fits field = length field ≤ max_field_size

-- The nonce of a message behind a field.
take_nonce :
    (nonce rest : Bytes)
    → length nonce ≡ 32
    → copy (replicate 32 0) (take 32 (nonce ++ rest)) ≡ nonce
take_nonce nonce rest h =
    rw (take-append 32 nonce rest h) (copy_whole (replicate 32 0) nonce (omega arith))

long_enough : (nonce rest : Bytes) → length nonce ≡ 32 → ltb (length (nonce ++ rest)) 32 ≡ false
long_enough nonce rest h = ground (arith, length-append nonce rest)

-- The first handshake message comes back from its encoding, if its nonce has 32 bytes and its
-- fields fit.
decode-encode_msg1 :
    (m : HandshakeMsg1)
    → Fits m.device_id
    → length m.nonce ≡ 32
    → Fits m.identity_pub
    → (encode_msg1 m >>= decode_msg1) ≡ ok m
unfolding encode_msg1 decode_msg1
decode-encode_msg1 m hd hn hi = rw (put_framed-fits [] m.device_id hd) (
    rw (put_framed-fits _ m.identity_pub hi) (
      simp framing (
        rw (long_enough m.nonce _ hn, drop-append 32 m.nonce _ hn, take_nonce m.nonce _ hn)
          (rw (take_framed-put_last m.identity_pub hi)))))

-- The second handshake message comes back from its encoding, if its nonce has 32 bytes and its
-- ciphertext fits.
decode-encode_msg2 :
    (m : HandshakeMsg2)
    → Fits m.kem_ciphertext
    → length m.gateway_nonce ≡ 32
    → (encode_msg2 m >>= decode_msg2) ≡ ok m
unfolding encode_msg2 decode_msg2
decode-encode_msg2 m hc hn = rw (put_framed-fits [] m.kem_ciphertext hc) (
    simp framing (
      rw (hn, take-all 32 m.gateway_nonce (omega arith))
        (rw (copy_whole (replicate 32 0) m.gateway_nonce (omega arith)))))

-- The third handshake message comes back from its encoding, if its signature fits.
decode-encode_msg3 : (m : HandshakeMsg3) → Fits m.signature → (encode_msg3 m >>= decode_msg3) ≡ ok m
unfolding encode_msg3 decode_msg3
decode-encode_msg3 m h =
    rw (put_framed-fits [] m.signature h) (rw (take_framed-put_last m.signature h))

-- Each of the three handshake messages comes back from its encoding, if its nonce has 32 bytes and
-- its fields have at most 65535.
pub decode-encode_handshake :
    (m1 : HandshakeMsg1) (m2 : HandshakeMsg2) (m3 : HandshakeMsg3)
    → Fits m1.device_id × Fits m1.identity_pub × Fits m2.kem_ciphertext × Fits m3.signature
    → (length m1.nonce ≡ 32) × (length m2.gateway_nonce ≡ 32)
    → ((encode_msg1 m1 >>= decode_msg1) ≡ ok m1)
      × ((encode_msg2 m2 >>= decode_msg2) ≡ ok m2)
      × ((encode_msg3 m3 >>= decode_msg3) ≡ ok m3)
decode-encode_handshake m1 m2 m3 (fd, fi, fc, fs) (n1, n2) =
    (decode-encode_msg1 m1 fd n1 fi, decode-encode_msg2 m2 fc n2, decode-encode_msg3 m3 fs)

-- The nonce and the ciphertext of a packet come back from its encoding, if both fit.
pub decode-encode_data :
    (nonce ciphertext : Bytes)
    → Fits nonce
    → Fits ciphertext
    → (encode_data nonce ciphertext >>= decode_data) ≡ ok (nonce, ciphertext)
unfolding encode_data decode_data
decode-encode_data nonce ciphertext hn hc =
    rw (put_framed-fits [] nonce hn) (
      rw (put_framed-fits _ ciphertext hc) (simp framing (rw (take_framed-put_last ciphertext hc))))

-- A firmware response comes back from its encoding, if its hash has 32 bytes and its signature
-- fits.
decode-encode_firmware_response :
    (r : FirmwareResponse)
    → length r.firmware_hash ≡ 32
    → Fits r.signature
    → (encode_firmware_response r >>= decode_firmware_response) ≡ ok r
unfolding encode_firmware_response decode_firmware_response
decode-encode_firmware_response r hh hs = rw (put_framed-fits r.firmware_hash r.signature hs) (
    simp framing (
      rw
        (
          long_enough r.firmware_hash _ hh,
          drop-append 32 r.firmware_hash _ hh,
          take_nonce r.firmware_hash _ hh,
        )
        (rw (take_framed-put_last r.signature hs))))

-- A packet's nonce and ciphertext come back from its encoding, and so does a firmware response, if
-- their fields have at most 65535 bytes and the hash has 32.
pub decode-encode_traffic :
    (nonce ciphertext : Bytes) (r : FirmwareResponse)
    → Fits nonce × Fits ciphertext × Fits r.signature
    → length r.firmware_hash ≡ 32
    → ((encode_data nonce ciphertext >>= decode_data) ≡ ok (nonce, ciphertext))
      × ((encode_firmware_response r >>= decode_firmware_response) ≡ ok r)
decode-encode_traffic nonce ciphertext r (fn, fc, fs) h =
    (decode-encode_data nonce ciphertext fn fc, decode-encode_firmware_response r h fs)

module _ (hash : Blake3) (key : Bytes) where
  -- A payload that is a body and a tag is cut there.
  pub decode_rotation_v2-append :
      (body tag : Bytes)
      → length tag ≡ control_tag_size
      → 8 ≤ length body
      → decode_rotation_v2 hash (body ++ tag) key ≡ (do
        fail_if
            (not
              (verify_control_tag hash key MessageType.rotation_v2 (uint64 (take 8 body)) body tag))
            control_tag_mismatch
        ct ← take_framed (drop 8 body)
        ok (record { iteration = uint64 (take 8 body); kem_ciphertext = ct.0 }))
  unfolding decode_rotation_v2
  decode_rotation_v2-append body tag ht hb =
      let seam : length (body ++ tag) - control_tag_size ≡ length body =
        omega (arith, length-append body tag) in
      let long : ltb (length (body ++ tag)) (8 + control_tag_size) ≡ false =
        le→ltb _ _ (omega (arith, length-append body tag)) in
      rw (seam, take-append (length body) body tag refl, drop-append (length body) body tag refl)
        (rw long)

  -- A rotation message comes back from its encoding under the same key, if its ciphertext fits.
  pub decode-encode_rotation_v2 :
      (m : RotationMsgV2)
      → m.iteration < u64_mod
      → Fits m.kem_ciphertext
      → (do payload ← encode_rotation_v2 hash m key; decode_rotation_v2 hash payload key) ≡ ok m
  unfolding encode_rotation_v2 encode_rotation_v2_body
  decode-encode_rotation_v2 m hi hc =
      let number = put_uint64 m.iteration in
      let field = put_uint16 (length m.kem_ciphertext) ++ m.kem_ciphertext in
      let cut = take-append 8 number field (length-put_uint64 m.iteration) in
      let read : uint64 number ≡ m.iteration =
        rw append-nil at (uint64-put_uint64 m.iteration [] hi) in
      let long : 8 ≤ length (number ++ field) =
        omega (arith, length-append number field, length-put_uint64 m.iteration) in
      let tag =
        compute_control_tag hash key MessageType.rotation_v2 m.iteration (number ++ field) in
      rw (put_framed-fits number m.kem_ciphertext hc) (
        rw (append_assoc number (put_uint16 (length m.kem_ciphertext)) m.kem_ciphertext) (
          rw
            (decode_rotation_v2-append (number ++ field) tag
              (length-compute_control_tag hash key _ _ _) long)
            (rw (cut, read, verify-compute hash key _ _ (number ++ field))
              (rw (
                drop-append 8 number field (length-put_uint64 m.iteration),
                take_framed-put_last m.kem_ciphertext hc,
              )))))

  -- An acknowledgement comes back from its encoding under the same key.
  pub decode-encode_rotation_ack :
      (a : RotationAck)
      → a.iteration < u64_mod
      → decode_rotation_ack hash (encode_rotation_ack hash a key) key ≡ ok a
  unfolding encode_rotation_ack decode_rotation_ack
  decode-encode_rotation_ack a hi =
      let number = put_uint64 a.iteration in
      let tag = compute_control_tag hash key MessageType.rotation_ack a.iteration number in
      let size = length-compute_control_tag hash key MessageType.rotation_ack a.iteration number in
      let read : uint64 number ≡ a.iteration =
        rw append-nil at (uint64-put_uint64 a.iteration [] hi) in
      let long : ltb (length (number ++ tag)) (8 + control_tag_size) ≡ false =
        le→ltb _ _ (omega (arith, length-append number tag, length-put_uint64 a.iteration, size)) in
      rw
        (
          take-append 8 number tag (length-put_uint64 a.iteration),
          drop-append 8 number tag (length-put_uint64 a.iteration),
        )
        (rw
          (
            take-all 8 number (omega (arith, length-put_uint64 a.iteration)),
            take-all 16 tag (omega (arith, size)),
            read,
          )
          (rw (long, verify-compute hash key MessageType.rotation_ack a.iteration number)))
