-- ===== src/Wire/Authentic.antt =====
-- What a rotation frame that was accepted must have looked like.
use lacert.Prelude.{
  Bool-cases, Bytes, arith, drop, err, inl, inr, length, length-take, ok, sym, take, take-all,
  take-append-drop, true, uint64, ◌++◌, ◌-◌, ◌≡◌, ◌≢◌, ◌≤◌,
}
use lacert.Crypto.Primitives.{Blake3}
use lacert.Crypto.Messages.{RotationMsgV2, RotationAck}
use lacert.Crypto.ControlTag.{
  control_tag_size, compute_control_tag, verify_control_tag, verify_control_tag-eq-true,
}
use lacert.Wire.MessageType
use lacert.Wire.Frame.{control_tag_mismatch}
use lacert.Wire.RoundTrip.{decode_rotation_v2-append}
use lacert.Wire.Messages.{decode_rotation_v2, decode_rotation_ack}

module _ (hash : Blake3) (key payload : Bytes) where
  -- An accepted rotation message ends with the tag of the rest of it, under this session's key,
  -- for the number of the step that is read out.
  pub decode_rotation_v2_authentic :
      (m : RotationMsgV2)
      → decode_rotation_v2 hash payload key ≡ ok m
      → (body : Bytes) × (payload
          ≡ body ++ compute_control_tag hash key MessageType.rotation_v2 m.iteration body)
        × (m.iteration ≡ uint64 (take 8 body))
  unfolding decode_rotation_v2
  decode_rotation_v2_authentic m h =
      let split = length payload - control_tag_size in
      let body = take split payload in
      let facts : (verify_control_tag hash key MessageType.rotation_v2 (uint64 (take 8 body)) body
              (drop split payload)
            ≡ true)
          × (uint64 (take 8 body) ≡ m.iteration) =
        ground arith in
      let tag = verify_control_tag-eq-true hash key _ _ body (drop split payload) facts.0 in
      (body, rw (← facts.1, ← tag) (sym (take-append-drop split payload)), sym facts.1)

  -- An accepted acknowledgement is the number of its step and the tag of that number. What comes
  -- after these 24 bytes is not authenticated and is ignored.
  pub decode_rotation_ack_authentic :
      (a : RotationAck)
      → decode_rotation_ack hash payload key ≡ ok a
      → (body rest : Bytes) × (payload
          ≡ body
            ++ (compute_control_tag hash key MessageType.rotation_ack a.iteration body ++ rest))
        × (length body ≡ 8)
        × (a.iteration ≡ uint64 body)
  unfolding decode_rotation_ack
  decode_rotation_ack_authentic a h =
      let body = take 8 payload in
      let after = drop 8 payload in
      let facts : (verify_control_tag hash key MessageType.rotation_ack (uint64 (take 8 body)) body
              (take 16 after)
            ≡ true)
          × (uint64 (take 8 body) ≡ a.iteration)
          × (24 ≤ length payload) =
        ground arith in
      let tag = verify_control_tag-eq-true hash key _ _ body (take 16 after) facts.0 in
      let size : length body ≡ 8 = omega (arith, length-take 8 payload, facts.2) in
      let whole : take 8 body ≡ body = take-all 8 body (omega arith) in
      (
        body,
        drop 16 after,
        rw (← facts.1, ← tag, take-append-drop 16 after) (sym (take-append-drop 8 payload)),
        size,
        rw whole at (sym facts.1),
      )

-- A rotation payload whose last 16 bytes are not the tag of the rest is refused with the tag's
-- error, whatever the rest holds.
pub decode_rotation_v2_forged :
    (hash : Blake3) (key body tag : Bytes)
    → length tag ≡ control_tag_size
    → 8 ≤ length body
    → tag ≢ compute_control_tag hash key MessageType.rotation_v2 (uint64 (take 8 body)) body
    → decode_rotation_v2 hash (body ++ tag) key ≡ err control_tag_mismatch
decode_rotation_v2_forged hash key body tag ht hb forged =
    let valid =
      verify_control_tag hash key MessageType.rotation_v2 (uint64 (take 8 body)) body tag in
    rw (decode_rotation_v2-append hash key body tag ht hb) (elim (Bool-cases valid) [
      | inl passed ↦ absurd (forged (verify_control_tag-eq-true hash key _ _ body tag passed))
      | inr refused ↦ rw refused
    ])
