-- ===== src/Device/Standing.antt =====
-- What the gateway knows of an enrolled device.
use lacert.Prelude.{arith, length, nat_beq_iff, ok, refl, some, ◌∙◌, ◌≡◌}
use lacert.Crypto.Primitives.{Primitives, IsKeyPair}
use lacert.Crypto.Signature.{IsKeyOf}
use lacert.Crypto.Kem.{unpack_kem_public_key, kem_public_key_bytes}
use lacert.Store.Types.{DeviceRecord, active}
use lacert.Store.Calls.{DeviceStore}
use lacert.Gateway.State.{Gateway, GatewaySettings}
use lacert.Gateway.Handshakes.{registered_kem_key}
use lacert.Device.{Device}

module _ {PK SK S : Type 0} (lib : Primitives PK SK) (db : DeviceStore S) where
  -- The gateway has the device's keys in its registry, and the device's keys work.
  pub record IsEnrolled (d : Device PK SK) (g : Gateway S) : Type 0 where
    pub rec : DeviceRecord
    pub found : db.get d.id g.store ≡ active rec
    pub scheme : rec.sig_algorithm ≡ d.identity.algorithm
    pub signing : rec.identity_pub ≡ d.identity.public_key
    pub sealing : rec.kem_pub ≡ kem_public_key_bytes lib.kem d.kem
    pub unpacks : lib.kem.unpack (lib.kem.pack d.kem.public_key) ≡ some d.kem.public_key
    pub pair : IsKeyPair lib.kem d.kem.public_key d.kem.private_key
    pub owned : IsKeyOf lib.sig d.identity.algorithm d.identity.public_key d.identity.sign_raw

module _ {PK SK S : Type 0} (lib : Primitives PK SK) (db : DeviceStore S)
    (c : GatewaySettings) where
  unpack-packed :
      (pk : PK)
      → lib.kem.unpack (lib.kem.pack pk) ≡ some pk
      → unpack_kem_public_key lib.kem (lib.kem.pack pk) ≡ ok pk
  unfolding unpack_kem_public_key
  unpack-packed pk h =
      ground (arith, lib.kem.length-pack pk, nat_beq_iff (length (lib.kem.pack pk)) 1568)

  pub registered-enrolled :
      (d : Device PK SK) (g : Gateway S)
      → IsEnrolled lib db d g
      → registered_kem_key lib db c d.id g ≡ ok d.kem.public_key
  unfolding registered_kem_key
  registered-enrolled d g e =
      let key : e.rec.kem_pub ≡ lib.kem.pack d.kem.public_key =
        e.sealing ∙ (unfold kem_public_key_bytes in refl) in
      ground (arith, e.found, key, unpack-packed d.kem.public_key e.unpacks)
