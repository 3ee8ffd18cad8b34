-- ===== src/Model/EventTypes.antt =====
-- include/ezcap/event_types.hpp and src/common/event_types.cpp: the enums of an event, their wire
-- names, and the confidence bands. A confidence is counted in hundredths.
pub mod Names
use ezcap.Base.{
  ℕ, Bool, true, false, not, ◌&&◌, [], ◌∷◌, Option, none, some, ◌==◌, leb, if◌then◌else◌, length,
  Text, codes, lower_byte,
}

pub data EventType : Type 0 where
  connection dns navigation process status error : EventType

pub data EventSource : Type 0 where
  ebpf pcap browser : EventSource

pub data Transport : Type 0 where
  tcp udp icmp other : Transport

pub data Direction : Type 0 where
  inbound outbound unknown : Direction

pub data ConfidenceBand : Type 0 where
  weak probable strong direct : ConfidenceBand

-- The loop of `equals_ci`, on strings of one length.
same_ci : Text → Text → Bool
unfolding lower_byte
same_ci (x ∷ xs) (y ∷ ys) = lower_byte x == lower_byte y && same_ci xs ys
same_ci _ _ = true

equals_ci : Text → Text → Bool
unfolding same_ci
equals_ci a b = if not (length a == length b) then false else same_ci a b

unfoldable pub confidence_band : ℕ → ConfidenceBand
confidence_band c =
    if leb 90 c then direct else if leb 70 c then strong else if leb 40 c then probable else weak

unfoldable pub event_type_name : EventType → Text
event_type_name connection = codes "connection"
event_type_name dns = codes "dns"
event_type_name navigation = codes "navigation"
event_type_name process = codes "process"
event_type_name status = codes "status"
event_type_name error = codes "error"

unfoldable pub event_type_from_name : Text → Option EventType
unfolding equals_ci
event_type_from_name name =
    if equals_ci name (codes "connection")
    then some connection
    else if equals_ci name (codes "dns")
    then some dns
    else if equals_ci name (codes "navigation")
    then some navigation
    else if equals_ci name (codes "process")
    then some process
    else if equals_ci name (codes "status")
    then some status
    else if equals_ci name (codes "error")
    then some error
    else none

unfoldable pub event_source_name : EventSource → Text
event_source_name ebpf = codes "ebpf"
event_source_name pcap = codes "pcap"
event_source_name browser = codes "browser"

unfoldable pub event_source_from_name : Text → Option EventSource
unfolding equals_ci
event_source_from_name name =
    if equals_ci name (codes "ebpf")
    then some ebpf
    else if equals_ci name (codes "pcap")
    then some pcap
    else if equals_ci name (codes "browser")
    then some browser
    else none

unfoldable pub transport_name : Transport → Text
transport_name tcp = codes "tcp"
transport_name udp = codes "udp"
transport_name icmp = codes "icmp"
transport_name other = codes "other"

unfoldable pub transport_from_name : Text → Option Transport
unfolding equals_ci
transport_from_name name =
    if equals_ci name (codes "tcp")
    then some tcp
    else if equals_ci name (codes "udp")
    then some udp
    else if equals_ci name (codes "icmp")
    then some icmp
    else if equals_ci name (codes "other")
    then some other
    else none

unfoldable pub direction_name : Direction → Text
direction_name inbound = codes "inbound"
direction_name outbound = codes "outbound"
direction_name unknown = codes "unknown"

unfoldable pub direction_from_name : Text → Option Direction
unfolding equals_ci
direction_from_name name =
    if equals_ci name (codes "inbound")
    then some inbound
    else if equals_ci name (codes "outbound")
    then some outbound
    else if equals_ci name (codes "unknown")
    then some unknown
    else none

unfoldable pub confidence_band_name : ConfidenceBand → Text
confidence_band_name weak = codes "weak"
confidence_band_name probable = codes "probable"
confidence_band_name strong = codes "strong"
confidence_band_name direct = codes "direct"
