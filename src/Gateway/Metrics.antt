-- ===== src/Gateway/Metrics.antt =====
-- internal/gateway/metrics.go: the counters, uint64 each. `Snapshot` copies the record.
use lacert.Prelude.{u64_mod, ℕ, ◌%◌, ◌+◌}

pub record Metrics : Type 0 where
  pub handshakes_completed : ℕ
  pub handshakes_rejected : ℕ
  pub replays_blocked : ℕ
  pub rotations_succeeded : ℕ
  pub rotations_failed : ℕ
  pub rotation_timeouts : ℕ
  pub firmware_checks_passed : ℕ
  pub firmware_checks_failed : ℕ
  pub firmware_checks_rejected : ℕ
  pub devices_revoked : ℕ
  pub telemetry_dropped : ℕ
  pub data_replays_blocked : ℕ

-- `n++` on a uint64.
unfoldable pub inc : ℕ → ℕ
inc n = (n + 1) % u64_mod

abbrev pub inc_handshake_completed : Metrics → Metrics
inc_handshake_completed m = record m { handshakes_completed = inc m.handshakes_completed }

abbrev pub inc_handshake_rejected : Metrics → Metrics
inc_handshake_rejected m = record m { handshakes_rejected = inc m.handshakes_rejected }

abbrev pub inc_replay_blocked : Metrics → Metrics
inc_replay_blocked m = record m { replays_blocked = inc m.replays_blocked }

abbrev pub inc_rotation_succeeded : Metrics → Metrics
inc_rotation_succeeded m = record m { rotations_succeeded = inc m.rotations_succeeded }

abbrev pub inc_rotation_failed : Metrics → Metrics
inc_rotation_failed m = record m { rotations_failed = inc m.rotations_failed }

abbrev pub inc_rotation_timeout : Metrics → Metrics
inc_rotation_timeout m = record m { rotation_timeouts = inc m.rotation_timeouts }

abbrev pub inc_firmware_passed : Metrics → Metrics
inc_firmware_passed m = record m { firmware_checks_passed = inc m.firmware_checks_passed }

abbrev pub inc_firmware_failed : Metrics → Metrics
inc_firmware_failed m = record m { firmware_checks_failed = inc m.firmware_checks_failed }

abbrev pub inc_firmware_rejected : Metrics → Metrics
inc_firmware_rejected m = record m { firmware_checks_rejected = inc m.firmware_checks_rejected }

abbrev pub inc_device_revoked : Metrics → Metrics
inc_device_revoked m = record m { devices_revoked = inc m.devices_revoked }

abbrev pub inc_data_replay_blocked : Metrics → Metrics
inc_data_replay_blocked m = record m { data_replays_blocked = inc m.data_replays_blocked }

abbrev pub inc_telemetry_dropped : Metrics → Metrics
inc_telemetry_dropped m = record m { telemetry_dropped = inc m.telemetry_dropped }

abbrev pub no_metrics : Metrics
no_metrics = record {
  handshakes_completed = 0;
  handshakes_rejected = 0;
  replays_blocked = 0;
  rotations_succeeded = 0;
  rotations_failed = 0;
  rotation_timeouts = 0;
  firmware_checks_passed = 0;
  firmware_checks_failed = 0;
  firmware_checks_rejected = 0;
  devices_revoked = 0;
  telemetry_dropped = 0;
  data_replays_blocked = 0;
}
