-- ===== src/Store/MemStore/Deletion.antt =====
-- Deleting a device: nothing of it is left, and all of the others is.
use lacert.Prelude.{
  Bool, Bool-cases, Bytes, List, Option, String, [], arith, false, if◌then◌else◌, inl, inr, keep,
  list_beq_iff, list_eq, lookup-delete, nat_eq, none, pair_eq, refl, reverse, string_eq, suc, true,
  zero, ℕ, ◌==◌, ◌∷◌, ◌≡◌,
}
use lacert.Store.Types.{
  TelemetryFilter, TelemetryReading, SessionEvent, RotationLogEntry, missing, Fetched,
}
use lacert.Store.MemStore.{
  MemStore, is_other, get, recent_events, rotation_history, latest_telemetry, delete_device,
  collect, events_by_type, event_wanted, query_telemetry, reading_wanted, default_query_limit,
}
use lacert.Store.MemStore.Queries.{cap, collect-cap}
use lacert.Store.MemStore.Kept.{keep-keep_none, keep-keep_same, first_of_device-kept}

-- What is asked about a device, beside its id: types of events, a span of time, and limits.
pub record Question : Type 0 where
  pub event_types : List String
  pub since : ℕ
  pub until : ℕ
  pub limit : ℕ

-- What the store tells about one device, by every query that can be asked for one.
pub record Trace : Type 0 where
  pub fetched : Fetched
  pub events : List SessionEvent
  pub typed_events : List SessionEvent
  pub readings : List TelemetryReading
  pub rotations : List RotationLogEntry
  pub latest : Option TelemetryReading

abbrev pub filter_of : Bytes → Question → TelemetryFilter
filter_of id q = record { device_id = id; since = q.since; until = q.until; limit = q.limit }

pub trace : Bytes → Question → MemStore → Trace
trace id q s = record {
  fetched = get id s;
  events = recent_events id q.limit s;
  typed_events = events_by_type q.event_types id q.limit s;
  readings = query_telemetry (filter_of id q) s;
  rotations = rotation_history id q.limit s;
  latest = latest_telemetry id s;
}

abbrev pub no_trace : Trace
no_trace = record {
  fetched = missing;
  events = [];
  typed_events = [];
  readings = [];
  rotations = [];
  latest = none;
}

cap-nil : {A : Type 0} (limit : ℕ) → cap {A = A} limit [] ≡ []
cap-nil zero = refl
cap-nil (suc limit) = ground arith

-- The loop over a journal from which a device's entries were taken, for what concerns one device.
collect-kept :
    {A : Type 0} (gone id : Bytes) (of : A → Bytes) (wanted : A → Bool) (xs : List A) (limit : ℕ)
    → ((x : A) → wanted x ≡ true → (of x == id) ≡ true)
    → collect wanted limit (reverse (keep (λ x. is_other gone (of x)) xs)) []
      ≡ (if gone == id then [] else collect wanted limit (reverse xs) [])
collect-kept gone id of wanted xs limit own =
    rw
      (
        collect-cap wanted limit (reverse (keep (λ x. is_other gone (of x)) xs)),
        collect-cap wanted limit (reverse xs),
      )
      (elim (Bool-cases (gone == id)) [
        | inl e ↦
            rw
              (
                e,
                keep-keep_none wanted (λ x. is_other gone (of x)) xs
                    (λ x h. ground (
                      arith,
                      own x,
                      list_beq_iff (of x) gone,
                      list_beq_iff (of x) id,
                      list_beq_iff gone id,
                    )),
                cap-nil limit,
              )
              refl
        | inr e ↦
            rw
              (
                e,
                keep-keep_same wanted (λ x. is_other gone (of x)) xs
                    (λ x h. ground (
                      arith,
                      own x,
                      list_beq_iff (of x) gone,
                      list_beq_iff (of x) id,
                      list_beq_iff gone id,
                    )),
              )
              refl
      ])

get-kept :
    (gone id : Bytes) (s : MemStore)
    → get id (delete_device gone s).1 ≡ (if gone == id then missing else get id s)
unfolding get delete_device
get-kept gone id s =
    rw (get, lookup-delete gone id s.devices)
      (elim (Bool-cases (gone == id)) [ inl e ↦ rw e refl | inr e ↦ rw e refl ])

if_trace :
    (t t' : Trace) (c : Bool)
    → t.fetched ≡ (if c then missing else t'.fetched)
    → t.events ≡ (if c then [] else t'.events)
    → t.typed_events ≡ (if c then [] else t'.typed_events)
    → t.readings ≡ (if c then [] else t'.readings)
    → t.rotations ≡ (if c then [] else t'.rotations)
    → t.latest ≡ (if c then none else t'.latest)
    → t ≡ (if c then no_trace else t')
if_trace t t' true f e y q r l = λ i. record {
  fetched = f i;
  events = e i;
  typed_events = y i;
  readings = q i;
  rotations = r i;
  latest = l i;
}
if_trace t t' false f e y q r l = λ i. record {
  fetched = f i;
  events = e i;
  typed_events = y i;
  readings = q i;
  rotations = r i;
  latest = l i;
}

readings-kept :
    (gone : Bytes) (b : ℕ) (bs : Bytes) (q : Question) (s : MemStore)
    → query_telemetry (filter_of (b ∷ bs) q) (delete_device gone s).1
      ≡ (if gone == b ∷ bs then [] else query_telemetry (filter_of (b ∷ bs) q) s)
unfolding query_telemetry delete_device
readings-kept gone b bs q s =
    let limit = if q.limit == 0 then default_query_limit else q.limit in
    let kept =
      collect-kept gone (b ∷ bs) (λ r. r.device_id) (reading_wanted (filter_of (b ∷ bs) q))
        s.telemetry limit (λ r h. ground arith) in
    rw (query_telemetry, kept)
      (elim (Bool-cases (gone == b ∷ bs)) [ inl e ↦ rw e refl | inr e ↦ rw e refl ])

-- After a device is deleted, the store answers every query for a nonempty device id so: for the
-- deleted device there is no record, no event of any types, no rotation and no reading, whatever the
-- span of time and the limits; for every other device each answer is what it was before, its whole
-- history included.
pub deletion_is_complete :
    (gone : Bytes) (b : ℕ) (bs : Bytes) (q : Question) (s : MemStore)
    → trace (b ∷ bs) q (delete_device gone s).1
      ≡ (if gone == b ∷ bs then no_trace else trace (b ∷ bs) q s)
unfolding trace recent_events events_by_type rotation_history latest_telemetry delete_device
deletion_is_complete gone b bs q s =
    let id = b ∷ bs in
    if_trace (trace id q (delete_device gone s).1) (trace id q s) (gone == id) (get-kept gone id s)
      (collect-kept gone id (λ e. e.device_id) (λ e. e.device_id == id) s.events q.limit (λ e h. h))
      (collect-kept gone id (λ e. e.device_id) (event_wanted q.event_types id) s.events q.limit
        (λ e h. ground arith))
      (readings-kept gone b bs q s)
      (collect-kept gone id (λ r. r.device_id) (λ r. r.device_id == id) s.rotations q.limit
        (λ r h. h))
      (first_of_device-kept gone id s.telemetry)
