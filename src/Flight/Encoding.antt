-- ===== src/Flight/Encoding.antt =====
-- services/rttx-server/src/flight.rs: an event comes back from its 64 bytes.
use rttx.Common.{
  ℕ, zero, suc, ◌*◌, ◌/◌, ◌<◌, ◌≡◌, refl, ap, ◌∙◌, arith, List, [], ◌∷◌, ◌++◌, length,
  length-append,
}
use rttx.Flight.{
  FlightEvent, EventType, SpanKind, to_le_bytes, from_le_bytes, slice_of, zeros, serialize_event,
  deserialize_event, event_type_number, event_type_from, span_kind_number, span_kind_from, enter,
  exit, event, panic, mutex_acquire, pty_read, vte_parse, client_dispatch, client_write,
  channel_send, serialization_tick, io_flush, client_session, shutdown, watchdog_timeout,
}

-- The numbers of `width` bytes are those below this.
abbrev pub byte_bound : ℕ → ℕ
byte_bound zero = 1
byte_bound (suc width) = 256 * byte_bound width

pub from_le_bytes-to_le_bytes :
    (width n : ℕ) → n < byte_bound width → from_le_bytes (to_le_bytes width n) ≡ n
from_le_bytes-to_le_bytes zero n h = omega (arith, h)
from_le_bytes-to_le_bytes (suc width) n h =
    omega (arith, from_le_bytes-to_le_bytes width (n / 256) (omega (arith, h)))

-- An event whose fields fit their Rust types.
pub record IsEvent (e : FlightEvent) : Type 0 where
  pub timestamp : e.timestamp_ns < byte_bound 8
  pub span : e.span_id < byte_bound 4
  pub sixteen : length e.context ≡ 16
  pub fits : e.value < byte_bound 8

slice_prefix : (xs ys : List ℕ) (n : ℕ) → length xs ≡ n → slice_of 0 n (xs ++ ys) ≡ xs
slice_prefix [] ys zero h = refl
slice_prefix [] ys (suc n) h = absurd (omega (arith, h))
slice_prefix (x ∷ xs) ys zero h = absurd (omega (arith, h))
slice_prefix (x ∷ xs) ys (suc n) h = ap (λ zs. x ∷ zs) (slice_prefix xs ys n (omega (arith, h)))

slice_past : (xs ys : List ℕ) (m n : ℕ) → length xs ≡ m → slice_of m n (xs ++ ys) ≡ slice_of 0 n ys
slice_past [] ys zero n h = refl
slice_past [] ys (suc m) n h = absurd (omega (arith, h))
slice_past (x ∷ xs) ys zero n h = absurd (omega (arith, h))
slice_past (x ∷ xs) ys (suc m) n h = slice_past xs ys m n (omega (arith, h))

event_type_lem : (t : EventType) → event_type_from (event_type_number t) ≡ t
unfolding event_type_from event_type_number
event_type_lem enter = refl
event_type_lem exit = refl
event_type_lem event = refl
event_type_lem panic = refl

span_kind_lem : (k : SpanKind) → span_kind_from (span_kind_number k) ≡ k
unfolding span_kind_from span_kind_number
span_kind_lem mutex_acquire = refl
span_kind_lem pty_read = refl
span_kind_lem vte_parse = refl
span_kind_lem client_dispatch = refl
span_kind_lem client_write = refl
span_kind_lem channel_send = refl
span_kind_lem serialization_tick = refl
span_kind_lem io_flush = refl
span_kind_lem client_session = refl
span_kind_lem shutdown = refl
span_kind_lem watchdog_timeout = refl

event_type-fits : (t : EventType) → event_type_number t < byte_bound 2
unfolding event_type_number
event_type-fits t = ground arith

span_kind-fits : (k : SpanKind) → span_kind_number k < byte_bound 2
unfolding span_kind_number
span_kind-fits k = ground arith

-- An event comes back from the bytes of its slot, where its fields fit their types.
pub deserialize_event-serialize_event :
    (e : FlightEvent) → IsEvent e → deserialize_event (serialize_event e) ≡ e
unfolding deserialize_event serialize_event
deserialize_event-serialize_event e v =
    let t = from_le_bytes-to_le_bytes 8 e.timestamp_ns v.timestamp in
    let s = from_le_bytes-to_le_bytes 4 e.span_id v.span in
    let k =
      ap event_type_from (
        from_le_bytes-to_le_bytes 2 (event_type_number e.event_type) (event_type-fits e.event_type))
      ∙ event_type_lem e.event_type in
    let l =
      ap span_kind_from
        (from_le_bytes-to_le_bytes 2 (span_kind_number e.span_kind) (span_kind-fits e.span_kind))
      ∙ span_kind_lem e.span_kind in
    let rest : List ℕ = to_le_bytes 8 e.value ++ zeros 24 in
    let c = slice_prefix e.context rest 16 v.sixteen in
    let u =
      ap from_le_bytes (slice_past e.context rest 16 8 v.sixteen)
      ∙ from_le_bytes-to_le_bytes 8 e.value v.fits in
    λ i. record {
      timestamp_ns = t i;
      span_id = s i;
      event_type = k i;
      span_kind = l i;
      context = c i;
      value = u i;
    }

pub length-serialize_event : (e : FlightEvent) → IsEvent e → length (serialize_event e) ≡ 64
unfolding serialize_event
length-serialize_event e v =
    let rest = length-append e.context (to_le_bytes 8 e.value ++ zeros 24) in
    omega (arith, rest, v.sixteen)
