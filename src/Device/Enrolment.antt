-- ===== src/Device/Enrolment.antt =====
-- A device is enrolled with the line that it prints.
use lacert.Prelude.{
  All, Bool-cases, Bytes, IsBytes, Option, [], ap, arith, beq_refl, false, inl, inr, length,
  list_eq, nat_eq, none, ok, pair_eq, refl, some, string_eq, sym, true, ℕ, ◌&&◌, ◌<◌, ◌∙◌, ◌∷◌, ◌≡◌,
}
use lacert.Crypto.Primitives.{Primitives, IsKeyPair}
use lacert.Crypto.Kem.{kem_public_key_bytes, unpack_kem_public_key}
use lacert.Crypto.Signature.{
  SigAlgorithm, IsKeyOf, public_key_bytes, validate_identity_public_key, ecdsa_p256, slhdsa,
  ed25519, unknown,
}
use lacert.Store.Types.{DeviceRecord, or_now}
use lacert.Store.Calls.{DeviceStore, device_step, fetched, register_call}
use lacert.Regtool.{SerialOutput, build_serial_output, verify_checksum, to_line, parse, is_blank}
use lacert.Regtool.Hex.{IsText}
use lacert.Regtool.Line.{IsPrintable, parse-to_line, compute_checksum-IsText}
use lacert.Gateway.State.{Gateway}
use lacert.Gateway.Registration.{
  id_char, all_id_chars, valid_device_id, check_serial, record_of, register_device,
}
use lacert.Device.{Device, firmware_hash, serial_registration_output}
use lacert.Device.Standing.{IsEnrolled}

id_char-solid : (c : ℕ) → id_char c ≡ true → is_blank c ≡ false
id_char-solid c h = ground arith

all_id_chars-solid : (id : Bytes) → all_id_chars id ≡ true → All (λ c. is_blank c ≡ false) id
unfolding all_id_chars
all_id_chars-solid [] h = tt
all_id_chars-solid (c ∷ cs) h = elim (Bool-cases (id_char c)) [
  | inl allowed ↦ (
    id_char-solid c allowed,
    all_id_chars-solid cs (sym (ap (λ b. b && all_id_chars cs) allowed) ∙ h),
  )
  | inr other ↦ absurd (cc (sym (ap (λ b. b && all_id_chars cs) other) ∙ h))
]

valid_device_id-IsText : (id : Bytes) → valid_device_id id ≡ true → IsText id
unfolding valid_device_id
valid_device_id-IsText id h = elim (Bool-cases (all_id_chars id)) [
  | inl allowed ↦ (ground arith, all_id_chars-solid id allowed)
  | inr other ↦ absurd (ground arith)
]

module _ {PK SK S : Type 0} (lib : Primitives PK SK) (db : DeviceStore S) where
  -- What a device is that can be registered: its identifier is one, its keys and its hash are bytes,
  -- and its keys work.
  pub record IsPrepared (d : Device PK SK) : Type 0 where
    pub id_valid : valid_device_id d.id ≡ true
    pub signing_bytes : IsBytes d.identity.public_key
    pub signing_valid :
        validate_identity_public_key lib.sig d.identity.algorithm d.identity.public_key ≡ ok tt
    pub sealing_bytes : IsBytes (lib.kem.pack d.kem.public_key)
    pub unpacks : lib.kem.unpack (lib.kem.pack d.kem.public_key) ≡ some d.kem.public_key
    pub hash_bytes : IsBytes (firmware_hash lib d)
    pub pair : IsKeyPair lib.kem d.kem.public_key d.kem.private_key
    pub owned : IsKeyOf lib.sig d.identity.algorithm d.identity.public_key d.identity.sign_raw

  abbrev printed : Device PK SK → SerialOutput
  printed d =
      build_serial_output lib.hash d.id d.identity.public_key (kem_public_key_bytes lib.kem d.kem)
        (firmware_hash lib d)

  valid_key_is_some :
      (alg : SigAlgorithm) (key : Bytes)
      → validate_identity_public_key lib.sig alg key ≡ ok tt
      → 0 < length key
  unfolding validate_identity_public_key
  valid_key_is_some alg [] h = absurd (cc h)
  valid_key_is_some alg (x ∷ xs) h = omega arith

  public_key_bytes-owned :
      (alg : SigAlgorithm) (key : Bytes) (raw : Bytes → Option Bytes)
      → IsKeyOf lib.sig alg key raw
      → public_key_bytes lib.sig (record { algorithm = alg; public_key = key; sign_raw = raw })
        ≡ ok key
  unfolding public_key_bytes IsKeyOf
  public_key_bytes-owned ecdsa_p256 key raw (form, _) = rw form refl
  public_key_bytes-owned slhdsa key raw own = refl
  public_key_bytes-owned ed25519 key raw own = refl
  public_key_bytes-owned unknown key raw never = absurd never

  serial-printed :
      (d : Device PK SK) → IsPrepared d → serial_registration_output lib d ≡ ok (printed d)
  unfolding serial_registration_output
  serial-printed d p =
      rw
        (public_key_bytes-owned d.identity.algorithm d.identity.public_key d.identity.sign_raw
          p.owned)
        refl

  printed-IsPrintable : (d : Device PK SK) → IsPrepared d → IsPrintable (printed d)
  unfolding build_serial_output kem_public_key_bytes firmware_hash
  printed-IsPrintable d p = record {
    id_text = valid_device_id-IsText d.id p.id_valid;
    identity_bytes = p.signing_bytes;
    some_identity = valid_key_is_some d.identity.algorithm d.identity.public_key p.signing_valid;
    kem_bytes = p.sealing_bytes;
    some_kem = rw (lib.kem.length-pack d.kem.public_key) (omega arith);
    hash_bytes = p.hash_bytes;
    hash_size = lib.sig.length-sha256 d.firmware_image;
    checksum_text = compute_checksum-IsText lib.hash _ _ _ _;
  }

  check_serial-printed :
      (d : Device PK SK)
      → IsPrepared d
      → check_serial lib db (printed d) d.identity.algorithm ≡ ok tt
  unfolding check_serial verify_checksum build_serial_output unpack_kem_public_key
      kem_public_key_bytes
  check_serial-printed d p =
      let sum_right : verify_checksum lib.hash (printed d) ≡ true =
        beq_refl {A = Bytes} (printed d).checksum in
      let sized = lib.kem.length-pack d.kem.public_key in
      ground (arith, p.id_valid, sum_right, sized, p.unpacks, p.signing_valid)

  -- The record that the store keeps.
  abbrev kept : ℕ → Device PK SK → DeviceRecord
  kept now d = record (record_of lib db (printed d) d.identity.algorithm) {
    created_at = or_now now 0;
  }

  register-printed :
      (now : ℕ) (d : Device PK SK) (g : Gateway S)
      → IsPrepared d
      → db.view d.id g.store ≡ none
      → (register_device lib db now (printed d) d.identity.algorithm g).0 ≡ ok tt
  unfolding register_device build_serial_output
  register-printed now d g p fresh = ground (
    arith,
    check_serial-printed d p,
    fresh,
    db.register-answer now (record_of lib db (printed d) d.identity.algorithm) g.store,
  )

  view-registered :
      (now : ℕ) (d : Device PK SK) (g : Gateway S)
      → IsPrepared d
      → db.view d.id g.store ≡ none
      → db.view d.id (register_device lib db now (printed d) d.identity.algorithm g).1.store
        ≡ some (kept now d)
  unfolding register_device build_serial_output device_step
  view-registered now d g p fresh =
      let rec = record_of lib db (printed d) d.identity.algorithm in
      let taken : (db.call (register_call now rec) g.store).0 ≡ ok tt =
        db.register-answer now rec g.store ∙ rw fresh refl in
      rw (register_device, check_serial-printed d p, taken)
        (db.view-call d.id _ _
          ∙ db.view-call d.id _ g.store
          ∙ rw (fresh, device_step, beq_refl {A = Bytes} d.id) refl)

  -- A device that is prepared and not yet known prints its line, the line is typed in, and the gateway
  -- registers what it reads: all of it is as the device printed it, the checks are passed, and the
  -- device is enrolled, so that it can shake hands.
  pub printed_line_enrols :
      (now : ℕ) (d : Device PK SK) (g : Gateway S)
      → IsPrepared d
      → db.view d.id g.store ≡ none
      → (s : SerialOutput) × (serial_registration_output lib d ≡ ok s)
        × (parse (to_line s) ≡ ok s)
        × (let r = register_device lib db now s d.identity.algorithm g in
            (r.0 ≡ ok tt) × IsEnrolled lib db d r.1)
  unfolding build_serial_output
  printed_line_enrols now d g p fresh =
      let s = printed d in
      let r = register_device lib db now s d.identity.algorithm g in
      (
        s,
        serial-printed d p,
        parse-to_line s (printed-IsPrintable d p),
        (
          register-printed now d g p fresh,
          record {
            rec = kept now d;
            found = db.get-view d.id r.1.store ∙ ap fetched (view-registered now d g p fresh);
            scheme = refl;
            signing = refl;
            sealing = refl;
            unpacks = p.unpacks;
            pair = p.pair;
            owned = p.owned;
          },
        ),
      )
