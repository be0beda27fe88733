-- ===== src/Examples/FlightRuns.antt =====
-- services/rttx-server/src/flight.rs: two events recorded and read back.
use rttx.Common.{◌-◌, ◌≡◌, refl, arith, List, [], ◌∷◌, length}
use rttx.Flight.{
  FlightEvent, EventType, SpanKind, zeros, slot_count, serialize_event, deserialize_event,
  open_ring, read_all,
}
use rttx.Flight.Encoding.{IsEvent, deserialize_event-serialize_event}
use rttx.Flight.Ring.{record_events}
use rttx.Flight.Replay.{drop, read_all-record_events}

abbrev entered : FlightEvent
entered = record {
  timestamp_ns = 1000000;
  span_id = 1;
  event_type = EventType.enter;
  span_kind = SpanKind.pty_read;
  context = zeros 16;
  value = 42;
}

abbrev exited : FlightEvent
exited = record entered { timestamp_ns = 1000400; event_type = EventType.exit }

entered-IsEvent : IsEvent entered
entered-IsEvent = record {
  timestamp = omega arith;
  span = omega arith;
  sixteen = refl;
  fits = omega arith;
}

exited-IsEvent : IsEvent exited
exited-IsEvent = record {
  timestamp = omega arith;
  span = omega arith;
  sixteen = refl;
  fits = omega arith;
}

abbrev both : List FlightEvent
both = entered ∷ exited ∷ []

deserialize_event-serialize_event_example : deserialize_event (serialize_event entered) ≡ entered
deserialize_event-serialize_event_example =
    deserialize_event-serialize_event entered entered-IsEvent

read_all-record_events_example :
    read_all (record_events open_ring both).file ≡ drop (length both - slot_count) both
read_all-record_events_example =
    read_all-record_events both (entered-IsEvent, (exited-IsEvent, tt)) (omega arith)
