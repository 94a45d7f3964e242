-- ===== src/Examples/Fixtures.antt =====
-- A gateway with one device, and libraries so simple that its handlers can be run.
use lacert.Prelude.{
  Bytes, Map, String, [], false, list_eq, nat_eq, pair_eq, refl, replicate, some, string_eq, ◌++◌,
  ◌==◌, ◌∷◌,
}
use lacert.Examples.Toy.{toy_kem, key_a, open_session}
use lacert.Crypto.Primitives.{Primitives}
use lacert.Crypto.Messages.{HandshakeMsg1, HandshakeMsg2, HandshakeMsg3}
use lacert.Crypto.Session.{CryptoError}
use lacert.Crypto.Signature.{ed25519}
use lacert.Crypto.ReplayGuard.{new_replay_guard}
use lacert.Store.Types.{DeviceRecord}
use lacert.Store.MemStore.{MemStore, new}
use lacert.Gateway.Metrics.{no_metrics}
use lacert.Gateway.State.{Gateway, GatewaySettings, default_gateway_settings}

-- Every sum is the same, a packet is its own ciphertext, and a signature is the signed text.
abbrev pub plain : Primitives Bytes Bytes
plain = record {
  hash = record { sum = λ m. key_a; length-sum = λ m. refl };
  kem = toy_kem;
  aead = record { seal = λ k n p. p; open_sealed = λ k n ct. some ct };
  sig = record {
    sha256 = λ m. key_a;
    p256_point = λ b. false;
    ecdsa_verify = λ k m s. false;
    slhdsa_key = λ b. false;
    slhdsa_verify = λ k m s. false;
    ed25519_verify = λ k m s. m == s;
    length-sha256 = λ m. refl;
  };
}

abbrev pub text_of : CryptoError → String
text_of e = "failed"

abbrev pub settings : GatewaySettings
settings = default_gateway_settings text_of

abbrev pub no_parse : Bytes → Map Bytes Bytes
no_parse b = []

abbrev pub lamp_id : Bytes
lamp_id = 1 ∷ []

abbrev pub word : Bytes
word = 1 ∷ 2 ∷ 3 ∷ []

abbrev pub nonce_1 : Bytes
nonce_1 = replicate 11 0 ++ 1 ∷ []

abbrev pub lamp : DeviceRecord
lamp = record {
  device_id = lamp_id;
  sig_algorithm = ed25519;
  identity_pub = key_a;
  kem_pub = replicate 1568 0;
  firmware_hash = key_a;
  revoked = false;
  revoked_reason = "";
  created_at = 3;
}

abbrev pub msg1 : HandshakeMsg1
msg1 = record { device_id = lamp_id; nonce = key_a; identity_pub = key_a }

abbrev pub msg2 : HandshakeMsg2
msg2 = record { kem_ciphertext = word; gateway_nonce = key_a }

abbrev pub msg3 : HandshakeMsg3
msg3 = record { signature = key_a }

-- A gateway with one device, which is connected and begins another handshake, and is being asked for
-- its firmware.
abbrev pub busy : Gateway MemStore
busy = record {
  store = record new { devices = (lamp_id, lamp) ∷ [] };
  log_session_keys = false;
  pending_handshake =
      (lamp_id, record { id = 2; msg1 = msg1; msg2 = msg2; shared_secret = word; issued_at = 10 })
      ∷ [];
  next_pending_id = 2;
  pending_firmware = (lamp_id, record { challenge = word; issued_at = 10 }) ∷ [];
  sessions = (lamp_id, 0) ∷ [];
  heap = (0, open_session) ∷ [];
  next_ref = 1;
  replay_guard = new_replay_guard 1000 0;
  metrics = no_metrics;
}
