-- ===== src/Flight/Replay.antt =====
-- services/rttx-server/src/flight.rs: what a reader finds in the ring.
use rttx.Common.{
  ℕ, zero, suc, ◌+◌, ◌-◌, ◌%◌, ◌<◌, ◌≤◌, ◌≡◌, refl, sym, ap, ◌∙◌, inl, inr, arith, some, List, [],
  ◌∷◌, length, get_elem?, leb, Bool-cases,
}
use rttx.Flight.{
  FlightEvent, RingWriter, slot_count, open_ring, stored_pos, read_slot, read_slots, read_wrapped,
  read_all,
}
use rttx.Flight.Encoding.{byte_bound}
use rttx.Flight.Ring.{Holds, AreEvents, record_events, record_events-Holds, open_ring-Holds}

abbrev pub drop : ℕ → List FlightEvent → List FlightEvent
drop zero es = es
drop (suc n) [] = []
drop (suc n) (e ∷ es) = drop n es

drop_here :
    (es : List FlightEvent) (i : ℕ)
    → i < length es
    → (e : FlightEvent) × (get_elem? es i ≡ some e) × (drop i es ≡ e ∷ drop (i + 1) es)
drop_here [] i h = elim h [ ]
drop_here (x ∷ es) zero h = (x, refl, refl)
drop_here (x ∷ es) (suc i) h =
    let (e, g, d) = drop_here es i (omega (arith, h)) in
    (e, g, d ∙ ap (λ n. e ∷ drop n (x ∷ es)) (next i))
  where
    next : (i : ℕ) → suc (i + 1) ≡ suc i + 1
    next i = omega arith

drop_all : (es : List FlightEvent) (i : ℕ) → length es ≤ i → drop i es ≡ []
drop_all [] zero h = refl
drop_all [] (suc i) h = refl
drop_all (e ∷ es) zero h = absurd (omega (arith, h))
drop_all (e ∷ es) (suc i) h = drop_all es i (omega (arith, h))

module _ (w : RingWriter) (past : List FlightEvent) (h : Holds w past) where
  read_slots-drop :
      length past ≤ slot_count
      → (i n : ℕ) → i + n ≡ length past
      → read_slots w.file i n ≡ drop i past
  unfolding read_slots
  read_slots-drop l i zero e = sym (drop_all past i (omega (arith, e)))
  read_slots-drop l i (suc n) e =
      let (x, g, d) = drop_here past i (omega (arith, e)) in
      let rest = read_slots-drop l (i + 1) n (omega (arith, e)) in
      let here : i % slot_count ≡ i = omega (arith, l, e) in
      let slot = ap (read_slot w.file) (sym here) ∙ h.slots i x g (omega (arith, l)) in
      cc (rest, slot, d)

  read_wrapped-drop :
      (k i n : ℕ)
      → k + slot_count ≡ length past
      → i + n ≡ slot_count
      → read_wrapped w.file (length past % slot_count) i n ≡ drop (k + i) past
  unfolding read_wrapped
  read_wrapped-drop k i zero e m = sym (drop_all past (k + i) (omega (arith, e, m)))
  read_wrapped-drop k i (suc n) e m =
      let (x, g, d) = drop_here past (k + i) (omega (arith, e, m)) in
      let rest = read_wrapped-drop k (i + 1) n e (omega (arith, m)) in
      let here : (length past % slot_count + i) % slot_count ≡ (k + i) % slot_count =
        omega (arith, e) in
      let slot = ap (read_slot w.file) here ∙ h.slots (k + i) x g (omega (arith, e)) in
      let next : k + i + 1 ≡ k + (i + 1) = omega arith in
      cc (rest, slot, d, ap (λ q. drop q past) next)

  unwrapped_read :
      length past ≤ slot_count
      → read_slots w.file 0 (stored_pos w.file) ≡ drop (length past - slot_count) past
  unwrapped_read l =
      ap (read_slots w.file 0) h.stored
      ∙ read_slots-drop l 0 (length past) (omega arith)
      ∙ ap (λ n. drop n past) (none_lost l)
    where
      none_lost : length past ≤ slot_count → 0 ≡ length past - slot_count
      none_lost l = omega (arith, l)

  wrapped_read :
      slot_count < length past
      → read_wrapped w.file (stored_pos w.file % slot_count) 0 slot_count
        ≡ drop (length past - slot_count) past
  wrapped_read l =
      ap (λ n. read_wrapped w.file (n % slot_count) 0 slot_count) h.stored
      ∙ read_wrapped-drop (length past - slot_count) 0 slot_count (omega (arith, l)) (omega arith)
      ∙ ap (λ n. drop n past) (from_zero (length past - slot_count))
    where
      from_zero : (n : ℕ) → n + 0 ≡ n
      from_zero n = omega arith

  read_all-drop : read_all w.file ≡ drop (length past - slot_count) past
  unfolding read_all
  read_all-drop = elim (Bool-cases (leb (length past) slot_count)) [
    | inl small ↦ ground (
      arith,
      h.stored,
      unwrapped_read (ground (arith, small)),
      drop_all past (length past - slot_count),
    )
    | inr big ↦ ground (arith, h.stored, wrapped_read (ground (arith, big)))
  ]

-- A reader of a recorder's file finds the last 65,536 events recorded, or all of them if there are no
-- more, from the oldest to the newest, where the events fit their types and their number is a `u64`.
pub read_all-record_events :
    (es : List FlightEvent)
    → AreEvents es
    → length es < byte_bound 8
    → read_all (record_events open_ring es).file ≡ drop (length es - slot_count) es
read_all-record_events es v small =
    read_all-drop (record_events open_ring es) es
      (record_events-Holds open_ring [] es v (omega (arith, small)) open_ring-Holds)
