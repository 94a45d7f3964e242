-- ===== src/Device/Channel.antt =====
-- A device and the gateway on one channel, and the packets that the device sends over it.
use lacert.Prelude.{
  All, Bool-cases, Bytes, List, [], arith, copy_whole, drop, false, inl, inr, length, list_beq_iff,
  list_eq, member, nat_beq_iff, nat_eq, ok, pair_eq, refl, replicate, some, string_eq, suc, sym,
  uint32, zero, ℕ, ◌++◌, ◌+◌, ◌-◌, ◌<◌, ◌==◌, ◌∙◌, ◌∷◌, ◌≡◌,
}
use lacert.Crypto.Session.{Session, max_seen_nonces, record_packet, check_data_nonce, evict}
use lacert.Crypto.Session.Window.{IsWindow}
use lacert.Crypto.Rotation.Outcomes.{IsReady}
use lacert.Gateway.State.{Gateway, Instance, session}
use lacert.Device.{Device}

-- The number that a packet's nonce ends with.
abbrev pub seq_of : Bytes → ℕ
seq_of nonce = uint32 (drop 8 nonce)

abbrev pub Numbered : ℕ → List Bytes → Type 0
Numbered bound nonces = All (λ n. seq_of n < bound) nonces

-- Both ends hold an open session under one key and at one step, neither is amid a rotation, and each
-- nonce that the gateway remembers has a number below the device's next.
pub record IsInStep {PK SK S : Type 0} (d : Device PK SK) (g : Gateway S) : Type 0 where
  pub near : Session
  pub far : Instance
  pub held : d.session ≡ some near
  pub linked : session d.id g ≡ some far
  pub ready : IsReady far.state near
  pub window : IsWindow far.state
  pub numbered : Numbered near.packet_count far.state.seen_order

Numbered-drop : (n bound : ℕ) (xs : List Bytes) → Numbered bound xs → Numbered bound (drop n xs)
Numbered-drop zero bound xs h = h
Numbered-drop (suc n) bound [] h = h
Numbered-drop (suc n) bound (x ∷ xs) h = Numbered-drop n bound xs h.1

pub Numbered-append :
    (bound : ℕ) (nonce : Bytes) (xs : List Bytes)
    → Numbered bound xs
    → seq_of nonce ≡ bound
    → Numbered (bound + 1) (xs ++ nonce ∷ [])
Numbered-append bound nonce [] h e = ground arith
Numbered-append bound nonce (x ∷ xs) h e =
    (omega (arith, h.0), Numbered-append bound nonce xs h.1 e)

pub not_member-Numbered :
    (nonce : Bytes) (xs : List Bytes) → Numbered (seq_of nonce) xs → member nonce xs ≡ false
not_member-Numbered nonce [] h = refl
not_member-Numbered nonce (x ∷ xs) h =
    let rest = not_member-Numbered nonce xs h.1 in
    elim (Bool-cases (x == nonce)) [
      | inl same ↦
          let e : x ≡ nonce = (list_beq_iff x nonce).0 same in
          absurd (let low : seq_of nonce < seq_of nonce = rw e at (h.0) in omega arith)
      | inr other ↦ rw other rest
    ]

pub Numbered-evict :
    (bound : ℕ) (s : Session) → Numbered bound s.seen_order → Numbered bound (evict s).seen_order
unfolding evict
Numbered-evict bound s h =
    ground (arith, Numbered-drop (length s.seen_order - max_seen_nonces + 1) bound s.seen_order h)

-- What a new nonce does to the window, and to nothing else that matters here.
pub record Remembered (nonce : Bytes) (s t : Session) : Type 0 where
  pub took : t.seen_order ≡ (evict s).seen_order ++ nonce ∷ []
  kept_key : (t.key ≡ s.key) × (t.pending_key ≡ s.pending_key) × (t.iteration ≡ s.iteration)
  kept_state : (t.closed ≡ s.closed) × (t.pending_active ≡ s.pending_active)

pub check_data_nonce-new :
    (nonce : Bytes) (s : Session)
    → IsWindow s
    → s.closed ≡ false
    → length nonce ≡ 12
    → member nonce s.seen_order ≡ false
    → ((check_data_nonce nonce s).0 ≡ ok tt) × Remembered nonce s (check_data_nonce nonce s).1
unfolding check_data_nonce evict
check_data_nonce-new nonce s w opened sized new =
    let own = copy_whole (replicate 12 0) nonce (sym sized) in
    let unseen = w.same nonce ∙ new in
    ground (arith, own, unseen, sized, nat_beq_iff (length nonce) 12)

pub Remembered-ready :
    (nonce : Bytes) (s t u : Session)
    → Remembered nonce s t
    → IsReady s u
    → IsReady (record_packet t) (record_packet u)
unfolding record_packet
Remembered-ready nonce s t u r h =
    ground (arith, r.kept_key, r.kept_state, h.level, h.idle, h.opened)
