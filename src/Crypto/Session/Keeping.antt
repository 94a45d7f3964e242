-- ===== src/Crypto/Session/Keeping.antt =====
-- How long an open session remembers a nonce, through what the gateway does with packets.
use lacert.Prelude.{
  Bytes, arith, false, list_eq, nat_eq, ok, pair_eq, string_eq, suc, ℕ, ◌+◌, ◌<◌, ◌∙◌, ◌≡◌,
}
use lacert.Crypto.Session.{Session, max_seen_nonces, record_packet, check_data_nonce, evict}
use lacert.Crypto.Session.Window.{
  IsWindow, checked, check_data_nonce-IsWindow, record_packet-IsWindow,
}
use lacert.Crypto.Session.Recency.{IsRecent, Checked-IsRecent, Checked-taken}

pub check_data_nonce-keeps :
    (nonce : Bytes) (s : Session)
    → ((check_data_nonce nonce s).1.key ≡ s.key) × ((check_data_nonce nonce s).1.closed ≡ s.closed)
unfolding check_data_nonce evict
check_data_nonce-keeps nonce s = ground arith

-- The session remembers the nonce among its last k + 1, is open, and has the key.
pub record Keeps (k : ℕ) (nonce key : Bytes) (s : Session) : Type 0 where
  pub window : IsWindow s
  pub recent : IsRecent k nonce s
  pub opened : s.closed ≡ false
  pub keyed : s.key ≡ key

pub later-Keeps :
    (k : ℕ) (nonce key : Bytes) (s : Session) → Keeps k nonce key s → Keeps (suc k) nonce key s
later-Keeps k nonce key s h =
    let (older, newer, split, late) = h.recent in
    record {
      window = h.window;
      recent = (older, newer, split, omega arith);
      opened = h.opened;
      keyed = h.keyed;
    }

pub check-Keeps :
    (k : ℕ) (nonce key n : Bytes) (s : Session)
    → k + 1 < max_seen_nonces
    → Keeps k nonce key s
    → Keeps (suc k) nonce key (check_data_nonce n s).1
check-Keeps k nonce key n s room h =
    let (same_key, same_closed) = check_data_nonce-keeps n s in
    record {
      window = check_data_nonce-IsWindow n s h.window;
      recent = Checked-IsRecent k nonce h.window room h.recent (checked n s);
      opened = same_closed ∙ h.opened;
      keyed = same_key ∙ h.keyed;
    }

pub record_packet-Keeps :
    (k : ℕ) (nonce key : Bytes) (s : Session)
    → Keeps k nonce key s
    → Keeps k nonce key (record_packet s)
unfolding record_packet
record_packet-Keeps k nonce key s h = record {
  window = record_packet-IsWindow s h.window;
  recent = h.recent;
  opened = h.opened;
  keyed = h.keyed;
}

pub taken-Keeps :
    (nonce : Bytes) (s : Session)
    → IsWindow s
    → (check_data_nonce nonce s).0 ≡ ok tt
    → Keeps 0 nonce s.key (record_packet (check_data_nonce nonce s).1)
taken-Keeps nonce s w taken =
    let (same_key, same_closed) = check_data_nonce-keeps nonce s in
    let (sized, opened, recent) = Checked-taken (checked nonce s) taken in
    record_packet-Keeps 0 nonce s.key (check_data_nonce nonce s).1 (record {
      window = check_data_nonce-IsWindow nonce s w;
      recent = recent;
      opened = same_closed ∙ opened;
      keyed = same_key;
    })
