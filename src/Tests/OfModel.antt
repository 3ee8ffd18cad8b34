-- ===== src/Tests/OfModel.antt =====
-- Names that are read and printed.
use ezcap.Base.{some, map, codes, ◌≡◌, ◌↔◌, lower_byte}
use ezcap.Model.EventTypes.{
  EventType, EventSource, Transport, Direction, event_type_name, event_type_from_name,
  event_source_name, event_source_from_name, transport_name, transport_from_name, direction_name,
  direction_from_name,
}
use ezcap.Model.EventTypes.Names.{wire_names_iff}

wire_names_iff_example :
    ((t : EventType)
      → (event_type_from_name (codes "UDP") ≡ some t)
        ↔ (map lower_byte (codes "UDP") ≡ event_type_name t))
    × ((s : EventSource)
        → (event_source_from_name (codes "UDP") ≡ some s)
          ↔ (map lower_byte (codes "UDP") ≡ event_source_name s))
    × ((t : Transport)
        → (transport_from_name (codes "UDP") ≡ some t)
          ↔ (map lower_byte (codes "UDP") ≡ transport_name t))
    × ((d : Direction)
        → (direction_from_name (codes "UDP") ≡ some d)
          ↔ (map lower_byte (codes "UDP") ≡ direction_name d))
wire_names_iff_example = wire_names_iff (codes "UDP")
