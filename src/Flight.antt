-- ===== src/Flight.antt =====
-- services/rttx-server/src/flight.rs: the flight recorder, a ring of event slots in a file. The file is
-- the byte at each offset; a write or a read of the open file is taken to succeed.
pub mod Bytes
pub mod Encoding
pub mod Ring
pub mod Replay
use rttx.Common.{
  ℕ, zero, suc, ◌+◌, ◌-◌, ◌*◌, ◌/◌, ◌%◌, Bool, Option, none, some, List, [], ◌∷◌, ◌++◌, ◌==◌, ltb,
  leb, if◌then◌else◌, get_elem?,
}

abbrev pub header_size : ℕ
header_size = 64

abbrev pub slot_size : ℕ
slot_size = 64

abbrev pub slot_count : ℕ
slot_count = 0x10000

abbrev pub write_pos_offset : ℕ
write_pos_offset = 12

pub data EventType : Type 0 where
  enter exit event panic : EventType

pub data SpanKind : Type 0 where
  mutex_acquire pty_read vte_parse client_dispatch client_write channel_send : SpanKind
  serialization_tick io_flush client_session shutdown watchdog_timeout : SpanKind

pub record FlightEvent : Type 0 where
  pub timestamp_ns : ℕ
  pub span_id : ℕ
  pub event_type : EventType
  pub span_kind : SpanKind
  pub context : List ℕ
  pub value : ℕ

abbrev pub File : Type 0
File = ℕ → ℕ

-- `write_all_at(buf, offset)`
unfoldable pub write_all_at : File → ℕ → List ℕ → File
write_all_at file offset buf i =
    if ltb i offset
    then file i
    else (elim (get_elem? buf (i - offset)) [ none ↦ file i | some byte ↦ byte ])

-- `read_exact_at` of `n` bytes.
unfoldable pub read_exact_at : File → ℕ → ℕ → List ℕ
read_exact_at file offset zero = []
read_exact_at file offset (suc n) = file offset ∷ read_exact_at file (offset + 1) n

-- `to_le_bytes` of a number of `width` bytes, and `from_le_bytes`.
abbrev pub to_le_bytes : ℕ → ℕ → List ℕ
to_le_bytes zero n = []
to_le_bytes (suc width) n = n % 256 ∷ to_le_bytes width (n / 256)

abbrev pub from_le_bytes : List ℕ → ℕ
from_le_bytes [] = 0
from_le_bytes (b ∷ bs) = b + 256 * from_le_bytes bs

abbrev pub zeros : ℕ → List ℕ
zeros zero = []
zeros (suc n) = 0 ∷ zeros n

-- `buf[start..start + n]`
abbrev pub slice_of : ℕ → ℕ → List ℕ → List ℕ
slice_of zero zero bs = []
slice_of zero (suc n) [] = []
slice_of zero (suc n) (b ∷ bs) = b ∷ slice_of zero n bs
slice_of (suc start) n [] = []
slice_of (suc start) n (b ∷ bs) = slice_of start n bs

-- `event_type as u16`
unfoldable pub event_type_number : EventType → ℕ
event_type_number enter = 0
event_type_number exit = 1
event_type_number event = 2
event_type_number panic = 3

-- `span_kind as u16`
unfoldable pub span_kind_number : SpanKind → ℕ
span_kind_number mutex_acquire = 0
span_kind_number pty_read = 1
span_kind_number vte_parse = 2
span_kind_number client_dispatch = 3
span_kind_number client_write = 4
span_kind_number channel_send = 5
span_kind_number serialization_tick = 6
span_kind_number io_flush = 7
span_kind_number client_session = 8
span_kind_number shutdown = 9
span_kind_number watchdog_timeout = 10

unfoldable pub event_type_from : ℕ → EventType
event_type_from n =
    if n == 0 then enter else (if n == 1 then exit else (if n == 3 then panic else event))

unfoldable pub span_kind_from : ℕ → SpanKind
span_kind_from n =
    if n == 0
    then mutex_acquire
    else (if n == 1
        then pty_read
        else (if n == 2
            then vte_parse
            else (if n == 3
                then client_dispatch
                else (if n == 4
                    then client_write
                    else (if n == 5
                        then channel_send
                        else (if n == 6
                            then serialization_tick
                            else (if n == 7
                                then io_flush
                                else (if n == 8
                                    then client_session
                                    else (if n == 10 then watchdog_timeout else shutdown)))))))))

unfoldable pub serialize_event : FlightEvent → List ℕ
unfolding event_type_number span_kind_number
serialize_event e =
    to_le_bytes 8 e.timestamp_ns
    ++ (to_le_bytes 4 e.span_id
        ++ (to_le_bytes 2 (event_type_number e.event_type)
            ++ (to_le_bytes 2 (span_kind_number e.span_kind)
                ++ (e.context ++ (to_le_bytes 8 e.value ++ zeros 24)))))

unfoldable pub deserialize_event : List ℕ → FlightEvent
unfolding event_type_from span_kind_from
deserialize_event buf = record {
  timestamp_ns = from_le_bytes (slice_of 0 8 buf);
  span_id = from_le_bytes (slice_of 8 4 buf);
  event_type = event_type_from (from_le_bytes (slice_of 12 2 buf));
  span_kind = span_kind_from (from_le_bytes (slice_of 14 2 buf));
  context = slice_of 16 16 buf;
  value = from_le_bytes (slice_of 32 8 buf);
}

pub record RingWriter : Type 0 where
  pub file : File
  pub write_pos : ℕ

abbrev pub magic : List ℕ
magic = 82 ∷ 84 ∷ 84 ∷ 88 ∷ 70 ∷ 76 ∷ 84 ∷ 0 ∷ []

-- A truncated file of zeros with its header.
unfoldable pub open_ring : RingWriter
unfolding write_all_at
open_ring = record {
  file = write_all_at (λ i. 0) 0 (magic ++ to_le_bytes 4 1 ++ zeros 52);
  write_pos = 0;
}

-- `fetch_add` wraps around at 64 bits.
unfoldable pub record_event : RingWriter → FlightEvent → RingWriter
unfolding write_all_at serialize_event
record_event w e =
    let offset = header_size + w.write_pos % slot_count * slot_size in
    record {
      file =
          write_all_at (write_all_at w.file offset (serialize_event e)) write_pos_offset
            (to_le_bytes 8 (w.write_pos + 1));
      write_pos = (w.write_pos + 1) % 0x10000000000000000;
    }

-- `RingReader::write_pos`
unfoldable pub stored_pos : File → ℕ
unfolding read_exact_at
stored_pos file = from_le_bytes (read_exact_at file write_pos_offset 8)

unfoldable pub read_slot : File → ℕ → FlightEvent
unfolding read_exact_at deserialize_event
read_slot file slot_index =
    deserialize_event (read_exact_at file (header_size + slot_index * slot_size) slot_size)

-- `for i in 0..count` over the slots as they lie, `i` counting up.
unfoldable pub read_slots : File → ℕ → ℕ → List FlightEvent
unfolding read_slot
read_slots file i zero = []
read_slots file i (suc n) = read_slot file i ∷ read_slots file (i + 1) n

-- The wrapped loop, from the slot at `start + i`.
unfoldable pub read_wrapped : File → ℕ → ℕ → ℕ → List FlightEvent
unfolding read_slot
read_wrapped file start i zero = []
read_wrapped file start i (suc n) =
    read_slot file ((start + i) % slot_count) ∷ read_wrapped file start (i + 1) n

unfoldable pub read_all : File → List FlightEvent
unfolding stored_pos read_slots read_wrapped
read_all file =
    let write_pos = stored_pos file in
    let unwrapped = read_slots file 0 write_pos in
    let wrapped = read_wrapped file (write_pos % slot_count) 0 slot_count in
    if write_pos == 0 then [] else (if leb write_pos slot_count then unwrapped else wrapped)
