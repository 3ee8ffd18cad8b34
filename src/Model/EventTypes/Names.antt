-- ===== src/Model/EventTypes/Names.antt =====
-- The wire names of src/common/event_types.cpp and the texts that are read as them.
use ezcap.Base.{true, [], ◌∷◌, map, some, ◌≡◌, refl, ◌↔◌, arith, length, Text, codes, lower_byte}
use ezcap.Model.EventTypes.{
  EventType, EventSource, Transport, Direction, same_ci, equals_ci, event_type_name,
  event_type_from_name, event_source_name, event_source_from_name, transport_name,
  transport_from_name, direction_name, direction_from_name,
}

same_ci-eq :
    (a b : Text) → length a ≡ length b → same_ci a b ≡ true → map lower_byte a ≡ map lower_byte b
unfolding same_ci
same_ci-eq [] [] e h = refl
same_ci-eq [] (y ∷ ys) e h = absurd (omega arith)
same_ci-eq (x ∷ xs) [] e h = absurd (omega arith)
same_ci-eq (x ∷ xs) (y ∷ ys) e h = ground (arith, same_ci-eq xs ys)

equals_ci-eq : (a b : Text) → equals_ci a b ≡ true → map lower_byte a ≡ map lower_byte b
unfolding equals_ci
equals_ci-eq a b h = ground (arith, same_ci-eq a b)

eq-equals_ci : (a b : Text) → map lower_byte a ≡ map lower_byte b → equals_ci a b ≡ true
unfolding equals_ci
eq-equals_ci [] [] e = refl
eq-equals_ci [] (y ∷ ys) e = cc
eq-equals_ci (x ∷ xs) [] e = cc
eq-equals_ci (x ∷ xs) (y ∷ ys) e = ground (arith, eq-equals_ci xs ys)

equals_ci_iff : (a b : Text) → (equals_ci a b ≡ true) ↔ (map lower_byte a ≡ map lower_byte b)
equals_ci_iff a b = (equals_ci-eq a b, eq-equals_ci a b)

direction_from_name_iff :
    (n : Text) (d : Direction)
    → (direction_from_name n ≡ some d) ↔ (map lower_byte n ≡ direction_name d)
unfolding direction_from_name direction_name lower_byte
direction_from_name_iff n d = ground (
  arith,
  equals_ci_iff n (codes "inbound"),
  equals_ci_iff n (codes "outbound"),
  equals_ci_iff n (codes "unknown"),
)

event_type_from_name_iff :
    (n : Text) (t : EventType)
    → (event_type_from_name n ≡ some t) ↔ (map lower_byte n ≡ event_type_name t)
unfolding event_type_from_name event_type_name lower_byte
event_type_from_name_iff n t = ground (
  arith,
  equals_ci_iff n (codes "connection"),
  equals_ci_iff n (codes "dns"),
  equals_ci_iff n (codes "navigation"),
  equals_ci_iff n (codes "process"),
  equals_ci_iff n (codes "status"),
  equals_ci_iff n (codes "error"),
)

event_source_from_name_iff :
    (n : Text) (s : EventSource)
    → (event_source_from_name n ≡ some s) ↔ (map lower_byte n ≡ event_source_name s)
unfolding event_source_from_name event_source_name lower_byte
event_source_from_name_iff n s = ground (
  arith,
  equals_ci_iff n (codes "ebpf"),
  equals_ci_iff n (codes "pcap"),
  equals_ci_iff n (codes "browser"),
)

transport_from_name_iff :
    (n : Text) (t : Transport)
    → (transport_from_name n ≡ some t) ↔ (map lower_byte n ≡ transport_name t)
unfolding transport_from_name transport_name lower_byte
transport_from_name_iff n t = ground (
  arith,
  equals_ci_iff n (codes "tcp"),
  equals_ci_iff n (codes "udp"),
  equals_ci_iff n (codes "icmp"),
  equals_ci_iff n (codes "other"),
)

-- An event type, a source, a transport or a direction is read from a text exactly when the text is
-- its wire name in some letter case.
pub wire_names_iff :
    (n : Text)
    → ((t : EventType) → (event_type_from_name n ≡ some t) ↔ (map lower_byte n ≡ event_type_name t))
      × ((s : EventSource)
          → (event_source_from_name n ≡ some s) ↔ (map lower_byte n ≡ event_source_name s))
      × ((t : Transport) → (transport_from_name n ≡ some t) ↔ (map lower_byte n ≡ transport_name t))
      × ((d : Direction) → (direction_from_name n ≡ some d) ↔ (map lower_byte n ≡ direction_name d))
wire_names_iff n = (
  event_type_from_name_iff n,
  event_source_from_name_iff n,
  transport_from_name_iff n,
  direction_from_name_iff n,
)
