-- ===== src/Examples/Toy.antt =====
-- Stand-ins for the libraries that have the laws which the theorems assume.
use lacert.Prelude.{
  Bytes, [], copy, false, length-copy, length-replicate, refl, replicate, some, true, ℕ, ◌++◌, ◌∙◌,
}
use lacert.Crypto.Primitives.{Blake3, Kem}
use lacert.Crypto.Session.{Session, blank_key}
use lacert.Wire.Frame.{Writer}
use lacert.Wire.Stream.{IsStream}

-- The sum is the first 32 bytes of the text.
abbrev pub toy_hash : Blake3
toy_hash = record {
  sum = λ m. copy (replicate 32 0) m;
  length-sum = λ m. length-copy (replicate 32 0) m;
}

abbrev toy_ciphertext : Bytes → Bytes
toy_ciphertext seed = copy (replicate 1568 0) seed

-- The shared key is the start of the ciphertext.
abbrev pub toy_kem : Kem Bytes Bytes
toy_kem = record {
  pack = λ pk. copy (replicate 1568 0) pk;
  unpack = λ b. some b;
  ciphertext = λ pk seed. toy_ciphertext seed;
  shared_key = λ pk seed. copy (replicate 32 0) (toy_ciphertext seed);
  decapsulate_to = λ sk ct. copy (replicate 32 0) ct;
  length-pack = λ pk. length-copy (replicate 1568 0) pk ∙ length-replicate {A = ℕ} 1568 0;
  length-ciphertext =
      λ pk seed. length-copy (replicate 1568 0) seed ∙ length-replicate {A = ℕ} 1568 0;
  length-shared_key = λ pk seed. length-copy (replicate 32 0) (toy_ciphertext seed);
  length-decapsulate_to = λ sk ct. length-copy (replicate 32 0) ct;
}

abbrev pub key_a : Bytes
key_a = replicate 32 7

abbrev pub open_session : Session
open_session = record {
  key = key_a;
  packet_count = 0;
  last_rotated_at = 5;
  rotation_count = 0;
  closed = false;
  iteration = 0;
  pending_key = blank_key;
  pending_active = false;
  pending_iteration = 0;
  pending_started_at = 0;
  seen_nonces = [];
  seen_order = [];
}

-- A connection that takes everything; its state is the stream.
abbrev pub memory_writer : Writer Bytes
memory_writer = record { write = λ w b. (w ++ b, true); buffered = true; flush = λ w. (w, true) }

abbrev pub memory_stream : IsStream memory_writer
memory_stream = record { shown = λ w. w; shown-write = λ w b h. refl; shown-flush = λ w h. refl }
