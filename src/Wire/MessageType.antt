-- ===== src/Wire/MessageType.antt =====
-- internal/wire/wire.go: the type tag of a frame.
use lacert.Prelude.{ℕ}

abbrev pub handshake_msg1 : ℕ
handshake_msg1 = 1

abbrev pub handshake_msg2 : ℕ
handshake_msg2 = 2

abbrev pub handshake_msg3 : ℕ
handshake_msg3 = 3

abbrev pub rotation : ℕ
rotation = 4

abbrev pub packet : ℕ
packet = 5

abbrev pub firmware_challenge : ℕ
firmware_challenge = 6

abbrev pub firmware_response : ℕ
firmware_response = 7

abbrev pub error : ℕ
error = 8

abbrev pub rotation_v2 : ℕ
rotation_v2 = 9

abbrev pub rotation_ack : ℕ
rotation_ack = 10
