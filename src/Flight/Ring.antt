-- ===== src/Flight/Ring.antt =====
-- services/rttx-server/src/flight.rs: what lies in the ring after any number of events.
use rttx.Common.{
  ℕ, zero, suc, ◌+◌, ◌*◌, ◌%◌, ◌<◌, ◌≤◌, ◌≡◌, ◌≢◌, refl, sym, ap, ◌∙◌, ◌⊎◌, inl, inr, arith, some,
  List, [], ◌∷◌, ◌++◌, length, length-append, get_elem?, append-nil,
}
use rttx.Flight.{
  FlightEvent, RingWriter, header_size, slot_size, slot_count, write_pos_offset, write_all_at,
  read_exact_at, to_le_bytes, from_le_bytes, serialize_event, deserialize_event, open_ring,
  record_event, stored_pos, read_slot,
}
use rttx.Flight.Bytes.{
  read_exact_at-write_all_at, read_exact_at-write_all_at_apart, length-to_le_bytes,
}
use rttx.Flight.Encoding.{
  IsEvent, deserialize_event-serialize_event, length-serialize_event, byte_bound,
  from_le_bytes-to_le_bytes,
}

unfoldable pub record_events : RingWriter → List FlightEvent → RingWriter
record_events w [] = w
record_events w (e ∷ es) = record_events (record_event w e) es

-- Every event of a list fits.
abbrev pub AreEvents : List FlightEvent → Type 0
AreEvents [] = Unit {0}
AreEvents (e ∷ es) = IsEvent e × AreEvents es

-- The newest events of `past`, at most a ring full, are in the slots of their numbers.
pub record Holds (w : RingWriter) (past : List FlightEvent) : Type 0 where
  pub pos : w.write_pos ≡ length past
  pub stored : stored_pos w.file ≡ length past
  pub slots :
      (j : ℕ) (e : FlightEvent)
      → get_elem? past j ≡ some e
      → length past ≤ j + slot_count
      → read_slot w.file (j % slot_count) ≡ e

get_elem?-lt :
    (past : List FlightEvent) (j : ℕ) (e : FlightEvent)
    → get_elem? past j ≡ some e
    → j < length past
get_elem?-lt [] j e h = cc
get_elem?-lt (x ∷ past) zero e h = omega arith
get_elem?-lt (x ∷ past) (suc j) e h = omega (arith, get_elem?-lt past j e h)

-- An entry of `past ++ [e]` is the last or one of the old.
snoc_cases :
    (past : List FlightEvent) (e x : FlightEvent) (j : ℕ)
    → get_elem? (past ++ e ∷ []) j ≡ some x
    → ((j ≡ length past) × (e ≡ x)) ⊎ (get_elem? past j ≡ some x)
snoc_cases [] e x zero h = inl (refl, ground (arith, h))
snoc_cases [] e x (suc j) h = cc
snoc_cases (y ∷ past) e x zero h = inr h
snoc_cases (y ∷ past) e x (suc j) h = elim (snoc_cases past e x j h) [
  | inl (p, q) ↦ inl (ap suc p, q)
  | inr q ↦ inr q
]

module _ (w : RingWriter) (e : FlightEvent) (v : IsEvent e) where
  other_slot :
      (i : ℕ)
      → i ≢ w.write_pos % slot_count
      → read_slot (record_event w e).file i ≡ read_slot w.file i
  unfolding read_slot record_event
  other_slot i n =
      let offset = header_size + w.write_pos % slot_count * slot_size in
      let file = write_all_at w.file offset (serialize_event e) in
      ap deserialize_event (
        read_exact_at-write_all_at_apart file write_pos_offset (header_size + i * slot_size)
          slot_size (to_le_bytes 8 (w.write_pos + 1))
          (inr (omega (arith, length-to_le_bytes 8 (w.write_pos + 1))))
        ∙ read_exact_at-write_all_at_apart w.file offset (header_size + i * slot_size) slot_size
            (serialize_event e) (grind (arith, n, length-serialize_event e v)))

  same_slot : read_slot (record_event w e).file (w.write_pos % slot_count) ≡ e
  unfolding read_slot record_event
  same_slot =
      let offset = header_size + w.write_pos % slot_count * slot_size in
      let file = write_all_at w.file offset (serialize_event e) in
      ap deserialize_event (
        read_exact_at-write_all_at_apart file write_pos_offset offset slot_size
          (to_le_bytes 8 (w.write_pos + 1))
          (inr (omega (arith, length-to_le_bytes 8 (w.write_pos + 1))))
        ∙ ap (read_exact_at file offset) (sym (length-serialize_event e v))
        ∙ read_exact_at-write_all_at w.file offset (serialize_event e))
      ∙ deserialize_event-serialize_event e v

  new_pos : w.write_pos + 1 < byte_bound 8 → stored_pos (record_event w e).file ≡ w.write_pos + 1
  unfolding stored_pos record_event
  new_pos h =
      let offset = header_size + w.write_pos % slot_count * slot_size in
      ap from_le_bytes (
        read_exact_at-write_all_at (write_all_at w.file offset (serialize_event e)) write_pos_offset
          (to_le_bytes 8 (w.write_pos + 1)))
      ∙ from_le_bytes-to_le_bytes 8 (w.write_pos + 1) h

apart_slots : (j p : ℕ) → j < p → p + 1 ≤ j + slot_count → j % slot_count ≢ p % slot_count
apart_slots j p h k e = omega (arith, h, k, e)

record_event-Holds :
    (w : RingWriter) (past : List FlightEvent) (e : FlightEvent)
    → IsEvent e
    → length past + 1 < byte_bound 8
    → Holds w past
    → Holds (record_event w e) (past ++ e ∷ [])
unfolding record_event
record_event-Holds w past e v small h =
    let longer : length (past ++ e ∷ []) ≡ length past + 1 = length-append past (e ∷ []) in
    record {
      pos = omega (arith, longer, h.pos);
      stored = new_pos w e v (omega (arith, small, h.pos)) ∙ omega (arith, longer, h.pos);
      slots = λ j x g l. elim (snoc_cases past e x j g) [
        | inl (p, q) ↦
            ap (λ i. read_slot (record_event w e).file (i % slot_count)) (p ∙ sym h.pos)
            ∙ same_slot w e v
            ∙ q
        | inr q ↦
            let below = get_elem?-lt past j x q in
            other_slot w e v (j % slot_count) (
              apart_slots j w.write_pos (omega (arith, below, h.pos))
                (omega (arith, l, longer, h.pos)))
            ∙ h.slots j x q (omega (arith, l, longer))
      ];
    }

append_snoc :
    (past : List FlightEvent) (e : FlightEvent) (es : List FlightEvent)
    → (past ++ e ∷ []) ++ es ≡ past ++ e ∷ es
append_snoc [] e es = refl
append_snoc (x ∷ past) e es = ap (λ ys. x ∷ ys) (append_snoc past e es)

pub record_events-Holds :
    (w : RingWriter) (past es : List FlightEvent)
    → AreEvents es
    → length past + length es < byte_bound 8
    → Holds w past
    → Holds (record_events w es) (past ++ es)
unfolding record_events
record_events-Holds w past [] v small h = rw (append-nil past) h
record_events-Holds w past (e ∷ es) v small h = rw (← append_snoc past e es) (
    record_events-Holds (record_event w e) (past ++ e ∷ []) es v.1
      (omega (arith, small, length-append past (e ∷ [])))
      (record_event-Holds w past e v.0 (omega (arith, small)) h))

pub open_ring-Holds : Holds open_ring []
unfolding open_ring stored_pos read_exact_at write_all_at
open_ring-Holds = record { pos = refl; stored = refl; slots = λ j e h l. cc }
