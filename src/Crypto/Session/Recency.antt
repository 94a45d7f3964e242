-- ===== src/Crypto/Session/Recency.antt =====
-- For how long a packet's nonce is remembered, over any arrivals.
use lacert.Prelude.{
  Bool-cases, Bytes, List, Result, [], ap, append_assoc, arith, copy_whole, drop, err, false, inl,
  inr, leb, leb→le, length, length-append, list_beq_iff, list_eq, member, member-append, nat_eq, ok,
  pair_eq, refl, replicate, string_eq, suc, sym, true, zero, ℕ, ◌++◌, ◌+◌, ◌-◌, ◌<◌, ◌∙◌, ◌∷◌, ◌≡◌,
  ◌≢◌, ◌≤◌,
}
use lacert.Crypto.Session.{
  Session, CryptoError, data_replay, max_seen_nonces, evict, check_data_nonce,
}
use lacert.Crypto.Session.Window.{
  IsWindow, Checked, refused, accepted, checked, id_of, check_data_nonce-IsWindow,
  check_data_nonce-verdict, not_member-evict,
}

-- Packets that arrive one after the other.
abbrev pub check_all : List Bytes → Session → Session
check_all [] s = s
check_all (nonce ∷ nonces) s = check_all nonces (check_data_nonce nonce s).1

-- `id` is among the last k + 1 nonces that were accepted.
abbrev pub IsRecent : ℕ → Bytes → Session → Type 0
IsRecent k id s =
    (older newer : List Bytes) × (s.seen_order ≡ older ++ (id ∷ newer)) × (length newer ≤ k)

drop-append_front :
    (n : ℕ) (xs ys : List Bytes) → n ≤ length xs → drop n (xs ++ ys) ≡ drop n xs ++ ys
drop-append_front zero xs ys h = refl
drop-append_front (suc n) [] ys h = absurd (omega arith)
drop-append_front (suc n) (x ∷ xs) ys h = drop-append_front n xs ys (omega arith)

-- An eviction drops one nonce at most, the oldest.
evict-IsRecent :
    (k : ℕ) (id : Bytes) (s : Session)
    → IsWindow s
    → k + 1 < max_seen_nonces
    → IsRecent k id s
    → IsRecent k id (evict s)
unfolding evict
evict-IsRecent k id s w room (older, newer, split, late) =
    elim (Bool-cases (leb max_seen_nonces (length s.seen_order))) [
      | inr e ↦ rw e (older, newer, split, late)
      | inl e ↦ rw e (
        drop (length s.seen_order - max_seen_nonces + 1) older,
        newer,
        rw split (
            drop-append_front _ older (id ∷ newer) (
              omega (
                arith,
                w.bounded,
                leb→le _ _ e,
                ap length split,
                length-append older (id ∷ newer),
              ))),
        late,
      )
    ]

pub Checked-IsRecent :
    (k : ℕ) (id : Bytes) {nonce : Bytes} {s : Session} {r : Result CryptoError (Unit {0}) × Session}
    → IsWindow s
    → k + 1 < max_seen_nonces
    → IsRecent k id s
    → Checked nonce s r
    → IsRecent (suc k) id r.1
Checked-IsRecent k id w room (older, newer, split, late) (refused e) =
    (older, newer, split, omega arith)
Checked-IsRecent k id {nonce} {s} w room h (accepted sized opened new) =
    let (older, newer, split, late) = evict-IsRecent k id s w room h in
    (
      older,
      newer ++ id_of nonce ∷ [],
      rw split (append_assoc older (id ∷ newer) (id_of nonce ∷ [])),
      omega (arith, length-append newer (id_of nonce ∷ [])),
    )

check_all-IsRecent :
    (nonces : List Bytes) (k : ℕ) (id : Bytes) (s : Session)
    → IsWindow s
    → k + length nonces < max_seen_nonces
    → IsRecent k id s
    → IsRecent (k + length nonces) id (check_all nonces s)
check_all-IsRecent [] k id s w room (older, newer, split, late) = (older, newer, split, omega arith)
check_all-IsRecent (nonce ∷ nonces) k id s w room h =
    let later =
      check_all-IsRecent nonces (suc k) id (check_data_nonce nonce s).1
        (check_data_nonce-IsWindow nonce s w) (omega arith)
        (Checked-IsRecent k id w (omega arith) h (checked nonce s)) in
    let (older, newer, split, late) = later in (older, newer, split, omega arith)

pub check_all-IsWindow :
    (nonces : List Bytes) (s : Session) → IsWindow s → IsWindow (check_all nonces s)
check_all-IsWindow [] s w = w
check_all-IsWindow (nonce ∷ nonces) s w =
    check_all-IsWindow nonces _ (check_data_nonce-IsWindow nonce s w)

Checked-closed :
    {nonce : Bytes} {s : Session} {r : Result CryptoError (Unit {0}) × Session}
    → Checked nonce s r
    → r.1.closed ≡ s.closed
unfolding evict
Checked-closed (refused e) = refl
Checked-closed {s = s} (accepted sized opened new) = ground arith

closed-check_all : (nonces : List Bytes) (s : Session) → (check_all nonces s).closed ≡ s.closed
closed-check_all [] s = refl
closed-check_all (nonce ∷ nonces) s =
    closed-check_all nonces (check_data_nonce nonce s).1 ∙ Checked-closed (checked nonce s)

pub Checked-taken :
    {nonce : Bytes} {s : Session} {r : Result CryptoError (Unit {0}) × Session}
    → Checked nonce s r
    → r.0 ≡ ok tt
    → (length nonce ≡ 12) × (s.closed ≡ false) × IsRecent 0 nonce r.1
Checked-taken (refused e) h = cc
Checked-taken {nonce} {s} (accepted sized opened new) h =
    let own = copy_whole (replicate 12 0) nonce (sym sized) in
    (
      sized,
      opened,
      ((evict s).seen_order, [], ap (λ i. (evict s).seen_order ++ i ∷ []) own, omega arith),
    )

pub IsRecent-member :
    (k : ℕ) (id : Bytes) (s : Session) → IsRecent k id s → member id s.seen_order ≡ true
IsRecent-member k id s (older, newer, split, late) =
    rw split (ground (arith, member-append id older (id ∷ newer), list_beq_iff id id))

-- A nonce that was accepted is refused again through the next 4095 packets of the same key,
-- whatever these are.
pub check_data_nonce_replayed :
    (s : Session) (nonce : Bytes) (nonces : List Bytes)
    → IsWindow s
    → (check_data_nonce nonce s).0 ≡ ok tt
    → length nonces < max_seen_nonces
    → (check_data_nonce nonce (check_all nonces (check_data_nonce nonce s).1)).0 ≡ err data_replay
check_data_nonce_replayed s nonce nonces w taken few =
    let first = checked nonce s in
    let (sized, opened, recent) = Checked-taken first taken in
    let s1 = (check_data_nonce nonce s).1 in
    let w1 = check_data_nonce-IsWindow nonce s w in
    let later = check_all-IsRecent nonces 0 nonce s1 w1 (omega arith) recent in
    let still = closed-check_all nonces s1 ∙ Checked-closed first ∙ opened in
    rw
      (check_data_nonce-verdict (check_all nonces s1) (check_all-IsWindow nonces s1 w1) still nonce)
      (rw (sized, IsRecent-member (0 + length nonces) nonce (check_all nonces s1) later))

-- A nonce is in the window only if it arrived: no fresh packet is refused as a replay.
Checked-member :
    (id : Bytes) {nonce : Bytes} {s : Session} {r : Result CryptoError (Unit {0}) × Session}
    → Checked nonce s r
    → member id s.seen_order ≡ false
    → nonce ≢ id
    → member id r.1.seen_order ≡ false
Checked-member id (refused e) new other = new
Checked-member id {nonce} {s} (accepted sized opened unseen) new other =
    let own = copy_whole (replicate 12 0) nonce (sym sized) in
    ground (
      arith,
      own,
      not_member-evict id s new,
      member-append id (evict s).seen_order (id_of nonce ∷ []),
      list_beq_iff nonce id,
    )

not_member-check_all :
    (id : Bytes) (nonces : List Bytes) (s : Session)
    → member id s.seen_order ≡ false
    → member id nonces ≡ false
    → member id (check_all nonces s).seen_order ≡ false
not_member-check_all id [] s new other = new
not_member-check_all id (nonce ∷ nonces) s new other =
    not_member-check_all id nonces (check_data_nonce nonce s).1
      (Checked-member id (checked nonce s) new (ground (arith, list_beq_iff nonce id)))
      (ground arith)

-- A packet whose nonce has not arrived under this key is accepted, after any packets.
pub check_data_nonce_fresh :
    (s : Session) (nonce : Bytes) (nonces : List Bytes)
    → IsWindow s
    → s.closed ≡ false
    → length nonce ≡ 12
    → member nonce s.seen_order ≡ false
    → member nonce nonces ≡ false
    → (check_data_nonce nonce (check_all nonces s)).0 ≡ ok tt
check_data_nonce_fresh s nonce nonces w opened sized new other =
    rw
      (check_data_nonce-verdict (check_all nonces s) (check_all-IsWindow nonces s w)
        (closed-check_all nonces s ∙ opened) nonce)
      (rw (sized, not_member-check_all nonce nonces s new other))
