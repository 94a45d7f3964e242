-- ===== src/Store/Types.antt =====
-- internal/store/store.go: the records, the errors and the filter. A Go string that comes from the
-- network is a byte string; a text that the program writes itself is a `String`. A time of 0 is the
-- zero `time.Time`.
use lacert.Crypto.Signature.{SigAlgorithm}
use lacert.Prelude.{
  Bool, Bytes, Map, Result, String, copy, err, if◌then◌else◌, length, list_eq, nat_eq, not, ok,
  pair_eq, replicate, string_eq, ℕ, ◌==◌,
}

abbrev pub or_now : ℕ → ℕ → ℕ
or_now now t = if t == 0 then now else t

pub record DeviceRecord : Type 0 where
  pub device_id : Bytes
  pub sig_algorithm : SigAlgorithm
  pub identity_pub : Bytes
  pub kem_pub : Bytes
  pub firmware_hash : Bytes
  pub revoked : Bool
  pub revoked_reason : String
  pub created_at : ℕ

pub data StoreError : Type 0 where
  device_not_found device_exists device_revoked bad_hash_length : StoreError

-- `FirmwareHashArray`.
unfoldable pub firmware_hash_array : DeviceRecord → Result StoreError Bytes
firmware_hash_array d =
    if not (length d.firmware_hash == 32)
    then err bad_hash_length
    else ok (copy (replicate 32 0) d.firmware_hash)

pub record SessionEvent : Type 0 where
  pub id : ℕ  -- uint
  pub device_id : Bytes
  pub event_type : String
  pub detail : String
  pub created_at : ℕ

-- The parsed fields hold, for each float64, the text that `strconv.ParseFloat` read.
pub record TelemetryReading : Type 0 where
  pub id : ℕ  -- uint
  pub device_id : Bytes
  pub raw_payload : Bytes
  pub parsed : Map Bytes Bytes
  pub received_at : ℕ

-- The error's text is empty for a success; keys are there only in the test mode.
pub record RotationLogEntry : Type 0 where
  pub id : ℕ  -- uint
  pub device_id : Bytes
  pub initiator : String
  pub success : Bool
  pub error_text : String
  pub old_key : Bytes
  pub new_key : Bytes
  pub rotation_count : ℕ
  pub created_at : ℕ

-- An empty `device_id` is every device, a time of 0 is no bound, a limit of 0 stands for every
-- one that is not positive.
pub record TelemetryFilter : Type 0 where
  pub device_id : Bytes
  pub since : ℕ
  pub until : ℕ
  pub limit : ℕ

-- What `Get` returns: a record, a record with `ErrDeviceRevoked`, or `ErrDeviceNotFound`.
pub data Fetched : Type 0 where
  active : DeviceRecord → Fetched
  revoked : DeviceRecord → Fetched
  missing : Fetched
