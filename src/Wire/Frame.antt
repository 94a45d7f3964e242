-- ===== src/Wire/Frame.antt =====
-- internal/wire/wire.go: `WriteFrame` and `ReadFrame`.
use lacert.Prelude.{
  Bool, Bytes, Result, [], drop, err, fail_if, if◌then◌else◌, length, ltb, ok, put_uint32, take,
  uint32, ℕ, ◌++◌, ◌>>=◌, ◌>>◌, ◌∷◌,
}

pub data WireError : Type 0 where
  eof unexpected_eof payload_too_large frame_too_large write_failed : WireError
  payload_too_short control_tag_mismatch : WireError
  -- `putFramed` panics
  field_too_large : WireError

abbrev pub max_frame_size : ℕ
max_frame_size = 65536

-- An `io.Writer`, by what its calls do to its state `W`; the flag of a call is `err == nil`.
-- `buffered` says whether it is a `*bufio.Writer`.
pub record Writer (W : Type 0) : Type 0 where
  pub write : W → Bytes → W × Bool
  pub buffered : Bool
  pub flush : W → W × Bool

abbrev try : {W : Type 0} → W × Bool → Result WireError W
try r = if r.1 then ok r.0 else err write_failed

abbrev pub header : ℕ → Bytes → Bytes
header msg_type payload = put_uint32 (length payload) ++ msg_type ∷ []

unfoldable pub write_frame : {W : Type 0} → Writer W → W → ℕ → Bytes → Result WireError W
write_frame wr w msg_type payload =
    if ltb max_frame_size (length payload) then err payload_too_large else do
      w1 ← try (wr.write w (header msg_type payload))
      w2 ← try (wr.write w1 payload)
      if wr.buffered then try (wr.flush w2) else ok w2

-- `io.ReadFull` of n bytes from a stream that holds what the peer sent before it closed.
abbrev pub read_full : ℕ → Bytes → Result WireError (Bytes × Bytes)
read_full n stream =
    if ltb (length stream) n
    then (if ltb 0 (length stream) then err unexpected_eof else err eof)
    else ok (take n stream, drop n stream)

pub record Frame : Type 0 where
  pub msg_type : ℕ
  pub payload : Bytes
  -- what the stream still holds
  pub rest : Bytes

abbrev pub message_type : Bytes → ℕ
message_type (_ ∷ _ ∷ _ ∷ _ ∷ t ∷ _) = t
message_type _ = 0

unfoldable pub read_frame : Bytes → Result WireError Frame
read_frame stream = do
  head ← read_full 5 stream
  fail_if (ltb max_frame_size (uint32 head.0)) frame_too_large
  body ← read_full (uint32 head.0) head.1
  ok (record { msg_type = message_type head.0; payload = body.0; rest = body.1 })
