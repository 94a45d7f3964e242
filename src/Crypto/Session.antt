-- ===== src/Crypto/Session.antt =====
-- internal/crypto/session.go and replay_data.go: the session, its key and its window of packet
-- nonces. A method that locks the mutex is one step; the clock's reading is its argument `now`.
-- Times are nanoseconds: `now.Sub(t) < d` is written `ltb now (t + d)`.
pub mod Window
pub mod Recency
pub mod Keeping
use lacert.Prelude.{
  Bool, Bytes, List, Option, Result, [], codes, copy, drop, err, false, if◌then◌else◌, leb, length,
  list_eq, member, nat_eq, none, not, ok, pair_eq, replicate, some, string_eq, take, true, uint32,
  without, ℕ, ◌*◌, ◌++◌, ◌+◌, ◌-◌, ◌==◌, ◌||◌, ◌∷◌,
}
use lacert.Crypto.Primitives.{Blake3}

pub data CryptoError : Type 0 where
  session_closed bad_key_size bad_secret_size bad_nonce_size : CryptoError
  rotation_in_progress iteration_out_of_order nothing_to_commit : CryptoError
  rotation_replay rotation_out_of_order no_pending_rotation : CryptoError
  data_replay bad_ciphertext_size payload_too_large authentication_failed : CryptoError
  replay_detected bad_public_key bad_signature unknown_algorithm field_too_large : CryptoError

-- The package's variables, which cmd/gatewayd may set at the start.
pub record Settings : Type 0 where
  pub rotation_packet_limit : ℕ
  pub rotation_interval : ℕ
  pub rotation_ack_timeout : ℕ

abbrev pub second : ℕ
second = 1000000000

abbrev pub default_settings : Settings
default_settings = record {
  rotation_packet_limit = 300;
  rotation_interval = 300 * second;
  rotation_ack_timeout = 5 * second;
}

abbrev pub session_key_size : ℕ
session_key_size = 32

abbrev pub max_seen_nonces : ℕ
max_seen_nonces = 4096

-- `packet_count` and `rotation_count` are of type int and only count up: 2^63 packets under one
-- key, or 2^63 rotations, are out of reach, so they are left unbounded.
-- `seen_nonces` is the map's set of keys; the nil map is the empty one.
pub record Session : Type 0 where
  pub key : Bytes
  pub packet_count : ℕ
  pub last_rotated_at : ℕ
  pub rotation_count : ℕ
  pub closed : Bool
  pub iteration : ℕ  -- uint64
  pub pending_key : Bytes
  pub pending_active : Bool
  pub pending_iteration : ℕ  -- uint64
  pub pending_started_at : ℕ
  pub seen_nonces : List Bytes
  pub seen_order : List Bytes

abbrev pub blank_key : Bytes
blank_key = replicate session_key_size 0

unfoldable pub zeroize : Bytes → Bytes
zeroize [] = []
zeroize (b ∷ bs) = 0 ∷ zeroize bs

unfoldable pub new_session : Bytes → ℕ → Result CryptoError Session
new_session k0 now =
    if not (length k0 == session_key_size)
    then err bad_key_size
    else ok (record {
      key = copy blank_key k0;
      packet_count = 0;
      last_rotated_at = now;
      rotation_count = 0;
      closed = false;
      iteration = 0;
      pending_key = blank_key;
      pending_active = false;
      pending_iteration = 0;
      pending_started_at = 0;
      seen_nonces = [];
      seen_order = [];
    })

unfoldable pub current_key : Session → Result CryptoError Bytes
current_key s = if s.closed then err session_closed else ok s.key

unfoldable pub needs_rotation : Settings → ℕ → Session → Bool
needs_rotation c now s =
    if s.closed
    then false
    else leb c.rotation_packet_limit s.packet_count
      || leb (s.last_rotated_at + c.rotation_interval) now

unfoldable pub record_packet : Session → Session
record_packet s = record s { packet_count = s.packet_count + 1 }

unfoldable pub reset_seen_nonces : Session → Session
reset_seen_nonces s = record s { seen_nonces = []; seen_order = [] }

unfoldable pub close : Session → Session
unfolding reset_seen_nonces
close s = reset_seen_nonces (record s {
  key = zeroize s.key;
  pending_key = zeroize s.pending_key;
  pending_active = false;
  closed = true;
})

pub record Stats : Type 0 where
  pub packet_count : ℕ
  pub rotation_count : ℕ
  pub last_rotated_at : ℕ

unfoldable pub stats : Session → Stats
stats s = record {
  packet_count = s.packet_count;
  rotation_count = s.rotation_count;
  last_rotated_at = s.last_rotated_at;
}

abbrev handshake_separator : Bytes
handshake_separator = codes "lacert_handshake_v1"

unfoldable pub derive_k0 : Blake3 → Bytes → Bytes → Bytes
derive_k0 hash shared_secret transcript =
    hash.sum (shared_secret ++ transcript ++ handshake_separator)

-- `for _, old := range s.seenOrder[:drop] { delete(s.seenNonces, old) }`
unfoldable pub forget_all : List Bytes → List Bytes → List Bytes
forget_all [] seen = seen
forget_all (old ∷ olds) seen = forget_all olds (without old seen)

-- The oldest entries make room when the window is full.
unfoldable pub evict : Session → Session
unfolding forget_all
evict s =
    let excess = length s.seen_order - max_seen_nonces + 1 in
    if leb max_seen_nonces (length s.seen_order)
    then record s {
      seen_nonces = forget_all (take excess s.seen_order) s.seen_nonces;
      seen_order = drop excess s.seen_order;
    }
    else s

abbrev pub remember_nonce : Bytes → Session → Session
remember_nonce id s = record s {
  seen_nonces = id ∷ without id s.seen_nonces;
  seen_order = s.seen_order ++ id ∷ [];
}

unfoldable pub check_data_nonce : Bytes → Session → Result CryptoError (Unit {0}) × Session
unfolding evict
check_data_nonce nonce s =
    let id = copy (replicate 12 0) nonce in
    if not (length nonce == 12)
    then (err bad_nonce_size, s)
    else if s.closed
    then (err session_closed, s)
    else if member id s.seen_nonces
    then (err data_replay, s)
    else (ok tt, remember_nonce id (evict s))

unfoldable pub seen_nonce_count : Session → ℕ
seen_nonce_count s = length s.seen_nonces

unfoldable pub seq_from_nonce : Bytes → Option ℕ
seq_from_nonce nonce = if not (length nonce == 12) then none else some (uint32 (drop 8 nonce))
