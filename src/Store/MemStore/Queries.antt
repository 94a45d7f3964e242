-- ===== src/Store/MemStore/Queries.antt =====
-- The queries of the journals, by what they select.
use lacert.Prelude.{
  Bool, Bool-cases, Bytes, List, Map, Option-cases, String, [], ap, append-nil, append_assoc, arith,
  false, if◌then◌else◌, inl, inr, insert, keep, leb, length, length-append, list_eq, lookup,
  lookup-insert, ltb, nat_eq, none, pair_eq, refl, reverse, reverse-append, some, string_eq, sym,
  take, take-all, take-append, ℕ, ◌&&◌, ◌++◌, ◌+◌, ◌<◌, ◌==◌, ◌||◌, ◌∙◌, ◌∷◌, ◌≡◌,
}
use lacert.Store.Types.{TelemetryReading, TelemetryFilter}
use lacert.Store.MemStore.{
  MemStore, collect, event_wanted, events_by_type, recent_events, is_empty, reading_wanted,
  default_query_limit, query_telemetry, rotation_history, latest_from, latest_telemetry_all,
  first_of_device, latest_telemetry,
}

module _ {A : Type 0} where
  -- A limit of 0 is none.
  abbrev pub cap : ℕ → List A → List A
  cap limit xs = if limit == 0 then xs else take limit xs

  take-snoc :
      (n : ℕ) (xs : List A) (x : A) (ys : List A)
      → length xs + 1 ≡ n
      → take n (xs ++ (x ∷ ys)) ≡ xs ++ x ∷ []
  take-snoc n xs x ys h =
      rw (← append_assoc xs (x ∷ []) ys)
        (take-append n (xs ++ x ∷ []) ys (omega (arith, length-append xs (x ∷ []))))

  -- The loop, from what it has collected so far.
  collect_from :
      (wanted : A → Bool) (limit : ℕ) (xs out : List A)
      → (0 < limit → length out < limit)
      → collect wanted limit xs out ≡ cap limit (out ++ keep wanted xs)
  unfolding collect
  collect_from wanted limit [] out room = elim (Bool-cases (limit == 0)) [
    | inl e ↦ rw e (sym (append-nil out))
    | inr e ↦ rw (e, append-nil out) (sym (take-all limit out (ground arith)))
  ]
  collect_from wanted limit (x ∷ xs) out room = elim (Bool-cases (wanted x)) [
    | inr e ↦ rw e (collect_from wanted limit xs out room)
    | inl e ↦ rw e (elim (Bool-cases (ltb 0 limit && leb limit (length (out ++ x ∷ [])))) [
      | inl full ↦
          let size = length-append out (x ∷ []) in
          let limited : (limit == 0) ≡ false = ground arith in
          let exact : length out + 1 ≡ limit = ground (arith, size) in
          rw (full, limited) (sym (take-snoc limit out x (keep wanted xs) exact))
      | inr more ↦ rw more (
          rw (← append_assoc out (x ∷ []) (keep wanted xs))
            (collect_from wanted limit xs (out ++ x ∷ []) (ground arith)))
    ])
  ]

  cap-limited : (limit : ℕ) (xs : List A) → 0 < limit → cap limit xs ≡ take limit xs
  cap-limited limit xs positive =
      let some_limit : (limit == 0) ≡ false = ground arith in rw some_limit refl

  -- A loop with a limit selects the first matches, and without one it selects all of them.
  pub collect-cap :
      (wanted : A → Bool) (limit : ℕ) (xs : List A)
      → collect wanted limit xs [] ≡ cap limit (keep wanted xs)
  collect-cap wanted limit xs = collect_from wanted limit xs [] (λ h. h)

abbrev query_limit : TelemetryFilter → ℕ
query_limit f = if f.limit == 0 then default_query_limit else f.limit

query_limit-positive : (f : TelemetryFilter) → 0 < query_limit f
query_limit-positive f = ground arith

-- Each query returns the newest matching entries, as many as its limit allows: all that match if
-- there is no limit. Telemetry has a limit of 50000 in its place, and comes oldest first.
pub queries_select_newest :
    (s : MemStore) (types : List String) (id : Bytes) (limit : ℕ) (f : TelemetryFilter)
    → (events_by_type types id limit s
        ≡ cap limit (keep (event_wanted types id) (reverse s.events)))
      × (recent_events id limit s ≡ cap limit (keep (λ e. e.device_id == id) (reverse s.events)))
      × (rotation_history id limit s
          ≡ cap limit (keep (λ r. is_empty id || r.device_id == id) (reverse s.rotations)))
      × (query_telemetry f s
          ≡ reverse (take (query_limit f) (keep (reading_wanted f) (reverse s.telemetry))))
unfolding events_by_type recent_events rotation_history query_telemetry
queries_select_newest s types id limit f = (
  collect-cap (event_wanted types id) limit (reverse s.events),
  collect-cap (λ e. e.device_id == id) limit (reverse s.events),
  collect-cap (λ r. is_empty id || r.device_id == id) limit (reverse s.rotations),
  ap (λ rs. reverse rs)
      (collect-cap (reading_wanted f) (query_limit f) (reverse s.telemetry)
        ∙ cap-limited (query_limit f) _ (query_limit-positive f)),
)

pub first_of_device-snoc :
    (id : Bytes) (ts : List TelemetryReading) (t : TelemetryReading)
    → first_of_device id (ts ++ t ∷ []) ≡ elim (first_of_device id ts) [
      | none ↦ if t.device_id == id then some t else none
      | some r ↦ some r
    ]
unfolding first_of_device
first_of_device-snoc id [] t = ground arith
first_of_device-snoc id (r ∷ ts) t = ground (arith, first_of_device-snoc id ts t)

latest_from-first :
    (id : Bytes) (ts : List TelemetryReading) (out : Map Bytes TelemetryReading)
    → lookup id (latest_from ts out)
      ≡ elim (first_of_device id (reverse ts)) [ none ↦ lookup id out | some t ↦ some t ]
unfolding latest_from
latest_from-first id [] out = unfold first_of_device in refl
latest_from-first id (t ∷ ts) out =
    rw
      (
        reverse-append (t ∷ []) ts,
        first_of_device-snoc id (reverse ts) t,
        latest_from-first id ts (insert t.device_id t out),
      )
      (ground (arith, lookup-insert t.device_id id t out))

-- The table of latest readings has for each device the reading that the query for that device
-- returns, and no entry where the query finds none.
pub latest_telemetry_agree :
    (id : Bytes) (s : MemStore) → lookup id (latest_telemetry_all s) ≡ latest_telemetry id s
unfolding latest_telemetry_all latest_telemetry
latest_telemetry_agree id s =
    latest_from-first id s.telemetry []
    ∙ elim (Option-cases (first_of_device id (reverse s.telemetry))) [
      | inl e ↦ unfold lookup in rw e refl
      | inr (t, e) ↦ rw e refl
    ]
