-- ===== src/Wire/Stream.antt =====
-- Frames on a connection: what `WriteFrame` puts on the stream, `ReadFrame` takes off again.
use lacert.Prelude.{
  >>=-eq-ok, All, Bytes, List, Result, [], append-nil, append_assoc, arith, drop-append, err,
  length, length-append, le→ltb, ok, put_uint32, refl, suc, take-append, true, uint32,
  uint32-put_uint32, zero, ℕ, ◌++◌, ◌>>=◌, ◌∷◌, ◌≡◌, ◌≤◌,
}
use lacert.Wire.Frame.{
  WireError, eof, message_type, Writer, header, max_frame_size, write_frame, read_frame, read_full,
}

-- A writer whose successful calls append to the stream that the peer reads. `shown` is what has
-- been written so far, whether or not it has left a buffer.
pub record IsStream {W : Type 0} (wr : Writer W) : Type 0 where
  pub shown : W → Bytes
  pub shown-write :
      (w : W) (b : Bytes) → (wr.write w b).1 ≡ true → shown (wr.write w b).0 ≡ shown w ++ b
  pub shown-flush : (w : W) → (wr.flush w).1 ≡ true → shown (wr.flush w).0 ≡ shown w

abbrev pub frame_bytes : ℕ × Bytes → Bytes
frame_bytes m = header m.0 m.1 ++ m.1

module _ {W : Type 0} (wr : Writer W) (st : IsStream wr) where
  -- A successful write is within the limit, and puts the header and the payload on the stream.
  pub shown-write_frame :
      (w w' : W) (t : ℕ) (payload : Bytes)
      → write_frame wr w t payload ≡ ok w'
      → (st.shown w' ≡ st.shown w ++ frame_bytes (t, payload)) × (length payload ≤ max_frame_size)
  unfolding write_frame
  shown-write_frame w w' t payload h =
      let w1 = wr.write w (header t payload) in
      let w2 = wr.write w1.0 payload in
      ground (
        arith,
        st.shown-write w (header t payload),
        st.shown-write w1.0 payload,
        st.shown-flush w2.0,
        append_assoc (st.shown w) (header t payload) payload,
      )

  -- Successive `WriteFrame` calls on one connection.
  unfoldable pub write_frames : W → List (ℕ × Bytes) → Result WireError W
  write_frames w [] = ok w
  write_frames w ((t, payload) ∷ ms) = do w' ← write_frame wr w t payload; write_frames w' ms

-- The reading loop of a connection: n calls of `ReadFrame`.
unfoldable pub read_frames : ℕ → Bytes → Result WireError (List (ℕ × Bytes) × Bytes)
read_frames zero stream = ok ([], stream)
read_frames (suc n) stream = do
  f ← read_frame stream
  more ← read_frames n f.rest
  ok ((f.msg_type, f.payload) ∷ more.0, more.1)

-- Reading as many bytes as the first part has takes that part.
read_full-append : (n : ℕ) (xs ys : Bytes) → length xs ≡ n → read_full n (xs ++ ys) ≡ ok (xs, ys)
read_full-append n xs ys h =
    rw (le→ltb (length (xs ++ ys)) n (omega (arith, length-append xs ys)))
      (rw (take-append n xs ys h, drop-append n xs ys h))

length-header : (t : ℕ) (payload : Bytes) → length (header t payload) ≡ 5
unfolding put_uint32
length-header t payload = refl

message_type-header : (t : ℕ) (payload : Bytes) → message_type (header t payload) ≡ t
unfolding put_uint32
message_type-header t payload = refl

-- One frame is read back, with all that follows it left on the stream.
pub read_frame-frame :
    (t : ℕ) (payload rest : Bytes)
    → length payload ≤ max_frame_size
    → read_frame (frame_bytes (t, payload) ++ rest)
      ≡ ok (record { msg_type = t; payload = payload; rest = rest })
unfolding read_frame
read_frame-frame t payload rest h =
    let n = length payload in
    let read : uint32 (header t payload) ≡ n = uint32-put_uint32 n (t ∷ []) (omega arith) in
    rw (append_assoc (header t payload) payload rest) (
      rw (read_full-append 5 (header t payload) (payload ++ rest) (length-header t payload)) (
        rw read (
          rw (le→ltb max_frame_size n h)
            (rw (read_full-append n payload rest refl, message_type-header t payload)))))

abbrev pub stream_of : List (ℕ × Bytes) → Bytes
stream_of [] = []
stream_of (m ∷ ms) = frame_bytes m ++ stream_of ms

abbrev pub FitFrames : List (ℕ × Bytes) → Type 0
FitFrames = All (λ m. length m.1 ≤ max_frame_size)

read_frames-stream_of :
    (ms : List (ℕ × Bytes)) (rest : Bytes)
    → FitFrames ms
    → read_frames (length ms) (stream_of ms ++ rest) ≡ ok (ms, rest)
unfolding read_frames
read_frames-stream_of [] rest h = refl
read_frames-stream_of ((t, payload) ∷ ms) rest (fit, fits) =
    rw (append_assoc (frame_bytes (t, payload)) (stream_of ms) rest) (
      rw (read_frame-frame t payload (stream_of ms ++ rest) fit)
        (rw (read_frames-stream_of ms rest fits)))

read_frame-nil : read_frame [] ≡ err eof
unfolding read_frame
read_frame-nil = refl

read_frames-past-end :
    (ms : List (ℕ × Bytes))
    → FitFrames ms
    → read_frames (suc (length ms)) (stream_of ms ++ []) ≡ err eof
unfolding read_frames
read_frames-past-end [] fits = rw read_frame-nil
read_frames-past-end ((t, payload) ∷ ms) (fit, fits) =
    rw (append_assoc (frame_bytes (t, payload)) (stream_of ms) [])
      (rw (read_frame-frame t payload (stream_of ms ++ []) fit) (rw (read_frames-past-end ms fits)))

module _ {W : Type 0} (wr : Writer W) (st : IsStream wr) where
  shown-write_frames :
      (w w' : W) (ms : List (ℕ × Bytes))
      → write_frames wr st w ms ≡ ok w'
      → (st.shown w' ≡ st.shown w ++ stream_of ms) × FitFrames ms
  unfolding write_frames
  shown-write_frames w w' [] h = (rw append-nil (cc), tt)
  shown-write_frames w w' ((t, payload) ∷ ms) h =
      let (w1, first, later) =
        >>=-eq-ok (write_frame wr w t payload) (λ v. write_frames wr st v ms) h in
      let (shown1, fit) = shown-write_frame wr st w w1 t payload first in
      let (shown2, fits) = shown-write_frames w1 w' ms later in
      (
        rw (shown2, shown1) (append_assoc (st.shown w) (frame_bytes (t, payload)) (stream_of ms)),
        (fit, fits),
      )

  -- What was written frame by frame to a fresh connection is read frame by frame, in order, with
  -- nothing lost, joined or left over; and a further read finds the end of the stream.
  pub read_frames-write_frames :
      (w w' : W) (ms : List (ℕ × Bytes))
      → st.shown w ≡ []
      → write_frames wr st w ms ≡ ok w'
      → (read_frames (length ms) (st.shown w') ≡ ok (ms, []))
        × (read_frames (suc (length ms)) (st.shown w') ≡ err eof)
  read_frames-write_frames w w' ms fresh h =
      let (shown, fits) = shown-write_frames w w' ms h in
      let whole : st.shown w' ≡ stream_of ms ++ [] = rw (shown, fresh, append-nil) in
      rw whole (read_frames-stream_of ms [] fits, read_frames-past-end ms fits)
