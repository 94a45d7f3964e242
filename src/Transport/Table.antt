-- ===== src/Transport/Table.antt =====
-- The table of connections, and how each change of it keeps it consistent.
pub mod Frames
pub mod Runs
use lacert.Prelude.{
  Bool-cases, Bytes, Map, Option, Option-cases, Unique, Unique-delete, Unique-insert, ap, arith,
  delete, inl, inr, insert, leb, length, length-delete, length-insert_new, length-insert_old,
  list_beq_iff, list_eq, lookup, lookup-delete, lookup-insert, nat_beq_iff, nat_eq, none, pair_eq,
  refl, some, string_eq, sym, ℕ, ◌+◌, ◌==◌, ◌∙◌, ◌≡◌, ◌≢◌, ◌≤◌, ◌⊎◌,
}
use lacert.Gateway.State.{Gateway}
use lacert.Transport.Network.{Network}
use lacert.Transport.Server.{
  Phase, awaiting_msg1, serving, Server, new_server, accept, register_conn, unregister_conn,
  finish_conn, end_service,
}

-- The count is that of the accepted connections and within the limit; a connection comes once; and a
-- device's entry is a connection that serves this device.
pub record IsTable (limit : ℕ) (conns : Map Bytes ℕ) (accepted : Map ℕ Phase) (active next : ℕ)
    : Type 0 where
  pub counted : active ≡ length accepted
  pub limited : active ≤ limit
  pub unique : Unique accepted
  pub fresh : (conn : ℕ) → next ≤ conn → lookup conn accepted ≡ none
  pub registered :
      (id : Bytes) (conn : ℕ)
      → lookup id conns ≡ some conn
      → (own : Option ℕ) × (lookup conn accepted ≡ some (serving id own))

abbrev pub HasTable : {S N : Type 0} → ℕ → Server S N → Type 0
HasTable limit s = IsTable limit s.conns s.accepted s.active s.next_conn

pub new_server-HasTable :
    {S N : Type 0} (limit : ℕ) (g : Gateway S) (n : N) → HasTable limit (new_server g n)
unfolding new_server Unique lookup
new_server-HasTable limit g n = record {
  counted = refl;
  limited = omega arith;
  unique = tt;
  fresh = λ conn late. refl;
  registered = λ id conn h. absurd (ground arith);
}

module _ {S N : Type 0} (net : Network N) (limit : ℕ) where
  pub accept-HasTable : (s : Server S N) → HasTable limit s → HasTable limit (accept net limit s)
  unfolding accept
  accept-HasTable s h = elim (Bool-cases s.closing) [
    | inl shut ↦ rw (accept, shut) (later s h)
    | inr running ↦ elim (Bool-cases (leb limit s.active)) [
      | inl full ↦ rw (accept, running, full) (later s h)
      | inr room ↦
          rw (accept, running, room)
            (record {
              counted = omega (
                arith,
                h.counted,
                length-insert_new s.next_conn awaiting_msg1 s.accepted
                    (h.fresh s.next_conn (omega arith)),
              );
              limited = ground (arith, room, h.limited);
              unique = Unique-insert s.next_conn awaiting_msg1 s.accepted h.unique;
              fresh = λ conn late. ground (
                arith,
                lookup-insert s.next_conn conn awaiting_msg1 s.accepted,
                h.fresh conn (omega arith),
                nat_beq_iff s.next_conn conn,
              );
              registered = λ id conn e.
                  let (own, served) = h.registered id conn e in
                  (
                    own,
                    ground (
                      arith,
                      served,
                      lookup-insert s.next_conn conn awaiting_msg1 s.accepted,
                      nat_beq_iff s.next_conn conn,
                      h.fresh s.next_conn (omega arith),
                    ),
                  );
            })
    ]
  ]
    where
      later :
          (s : Server S N)
          → HasTable limit s
          → IsTable limit s.conns s.accepted s.active (s.next_conn + 1)
      later s h = record {
        counted = h.counted;
        limited = h.limited;
        unique = h.unique;
        fresh = λ conn late. h.fresh conn (omega arith);
        registered = h.registered;
      }

  -- A connection that is in no device's entry moves on to its next read.
  pub advance-HasTable :
      (conn : ℕ) (old new : Phase) (s : Server S N)
      → lookup conn s.accepted ≡ some old
      → ((id : Bytes) (own : Option ℕ) → old ≢ serving id own)
      → HasTable limit s
      → HasTable limit (record s { accepted = insert conn new s.accepted })
  advance-HasTable conn old new s here other h = record {
    counted = h.counted ∙ sym (length-insert_old conn new old s.accepted here);
    limited = h.limited;
    unique = Unique-insert conn new s.accepted h.unique;
    fresh = λ c late.
        ground
          (arith, here, h.fresh c late, lookup-insert conn c new s.accepted, nat_beq_iff conn c);
    registered = λ id c e.
        let (own, served) = h.registered id c e in
        (
          own,
          elim (Bool-cases (conn == c)) [
            | inl same ↦
                let p : conn ≡ c = (nat_beq_iff conn c).0 same in
                absurd (other id own (ground (arith, p, here, served)))
            | inr apart ↦ lookup-insert conn c new s.accepted ∙ rw apart served
          ],
        );
  }

  pub finish_conn-HasTable :
      (conn : ℕ) (old : Phase) (s : Server S N)
      → lookup conn s.accepted ≡ some old
      → ((id : Bytes) → lookup id s.conns ≢ some conn)
      → HasTable limit s
      → HasTable limit (finish_conn net conn s)
  unfolding finish_conn
  finish_conn-HasTable conn old s here free h = record {
    counted = omega (arith, h.counted, length-delete conn old s.accepted h.unique here);
    limited = omega (arith, h.limited);
    unique = Unique-delete conn s.accepted h.unique;
    fresh = λ c late. ground (arith, h.fresh c late, lookup-delete conn c s.accepted);
    registered = λ id c e.
        let (own, served) = h.registered id c e in
        (
          own,
          elim (Bool-cases (conn == c)) [
            | inl same ↦
                let p : conn ≡ c = (nat_beq_iff conn c).0 same in
                absurd (free id (ground (arith, p, e)))
            | inr apart ↦ lookup-delete conn c s.accepted ∙ rw apart served
          ],
        );
  }

  pub register_conn-HasTable :
      (id : Bytes) (own : Option ℕ) (conn : ℕ) (s : Server S N)
      → lookup conn s.accepted ≡ some (serving id own)
      → HasTable limit s
      → HasTable limit (register_conn net id conn s)
  unfolding register_conn
  register_conn-HasTable id own conn s here h = elim (Option-cases (lookup id s.conns)) [
    | inl none_there ↦ rw (register_conn, none_there) table
    | inr (old, there) ↦ rw (register_conn, there) table
  ]
    where
      table : IsTable limit (insert id conn s.conns) s.accepted s.active s.next_conn
      table = record {
        counted = h.counted;
        limited = h.limited;
        unique = h.unique;
        fresh = h.fresh;
        registered = λ j c e. elim (Bool-cases (id == j)) [
          | inl same ↦
              let p : id ≡ j = (list_beq_iff id j).0 same in
              let q : conn ≡ c = ground (arith, e, same, lookup-insert id j conn s.conns) in
              (own, ground (arith, p, q, here))
          | inr apart ↦ h.registered j c (ground (arith, e, apart, lookup-insert id j conn s.conns))
        ];
      }

  -- What the end of a connection's service does to the table.
  pub end_service-run :
      (id : Bytes) (own : Option ℕ) (conn : ℕ) (s : Server S N)
      → let t = end_service net id own conn s in
        (((t.conns ≡ s.conns) × (lookup id s.conns ≢ some conn)) ⊎ (t.conns ≡ delete id s.conns))
        × (t.accepted ≡ s.accepted)
        × (t.active ≡ s.active)
        × (t.next_conn ≡ s.next_conn)
  unfolding end_service unregister_conn
  end_service-run id own conn s = elim (Option-cases (lookup id s.conns)) [
    | inl e ↦ rw (end_service, unregister_conn, e) (inl (refl, λ p. cc (e, p)), refl, refl, refl)
    | inr (current, e) ↦ elim (Bool-cases (current == conn)) [
      | inl same ↦ rw (end_service, unregister_conn, e, same) (inr refl, refl, refl, refl)
      | inr apart ↦
          rw (end_service, unregister_conn, e, apart)
            (
              inl (refl, λ p. ground (arith, e, p, apart, nat_beq_iff current conn)),
              refl,
              refl,
              refl,
            )
    ]
  ]

  -- After it no device's entry is this connection.
  pub end_service-HasTable :
      (id : Bytes) (own : Option ℕ) (conn : ℕ) (s : Server S N)
      → lookup conn s.accepted ≡ some (serving id own)
      → HasTable limit s
      → HasTable limit (end_service net id own conn s)
        × ((j : Bytes) → lookup j (end_service net id own conn s).conns ≢ some conn)
  end_service-HasTable id own conn s here h =
      let t = end_service net id own conn s in
      let (table, same_accepted, same_active, same_next) = end_service-run id own conn s in
      let only : (j : Bytes) → lookup j s.conns ≡ some conn → j ≡ id =
        λ j e. let (o, served) = h.registered j conn e in ground (arith, here, served) in
      let kept : (j : Bytes) (c : ℕ) → lookup j t.conns ≡ some c → lookup j s.conns ≡ some c =
        λ j c e. elim table [
          | inl whole ↦ ap (λ m. lookup j m) (sym (whole.0)) ∙ e
          | inr less ↦ ground (arith, lookup-delete id j s.conns, ap (λ m. lookup j m) less, e)
        ] in
      (
        record {
          counted = rw (same_accepted, same_active) h.counted;
          limited = rw same_active h.limited;
          unique = rw same_accepted h.unique;
          fresh = λ c late. rw same_accepted (h.fresh c (rw same_next at late));
          registered = λ j c e. rw same_accepted (h.registered j c (kept j c e));
        },
        λ j e.
            let p = only j (kept j conn e) in
            elim table [
              | inl whole ↦ whole.1 (ap (λ i. lookup i s.conns) (sym p) ∙ kept j conn e)
              | inr less ↦ absurd (
                  ground (
                    arith,
                    lookup-delete id j s.conns,
                    ap (λ m. lookup j m) less,
                    e,
                    p,
                    list_beq_iff id j,
                  ))
            ],
      )
