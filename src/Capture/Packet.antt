-- ===== src/Capture/Packet.antt =====
-- src/capture/packet_parser.hpp and packet_parser.cpp: the headers of an Ethernet frame. A frame is
-- its bytes. `inet_ntop` is the system's: the two formats are parameters.
pub mod Safety
pub mod Payload
use ezcap.Base.{
  ℕ, ◌+◌, ◌-◌, ◌*◌, ◌/◌, ◌%◌, ◌^◌, Bool, true, false, not, ◌&&◌, ◌||◌, List, [], ◌∷◌, ltb, leb,
  ◌==◌, if◌then◌else◌, length, Text,
}
use ezcap.Capture.Dns.{parse_dns_qname}
use ezcap.Capture.Scan.{Scan, oob, rejected, done, ◌>>=◌, ◌>>◌, at, bytes_at, minus}
use ezcap.Model.EventTypes.{Transport, tcp, udp, icmp, other, Direction, unknown}

pub record PacketMetadata : Type 0 where
  pub valid : Bool
  pub transport : Transport
  pub direction : Direction
  pub local_address : Text
  pub remote_address : Text
  pub source_port : ℕ
  pub destination_port : ℕ
  pub dns_query_name : Text
  pub dns_response_code : ℕ
  pub has_dns_response_code : Bool

abbrev pub no_metadata : PacketMetadata
no_metadata = record {
  valid = false;
  transport = other;
  direction = unknown;
  local_address = [];
  remote_address = [];
  source_port = 0;
  destination_port = 0;
  dns_query_name = [];
  dns_response_code = 0;
  has_dns_response_code = false;
}

abbrev pub eth_header_len : ℕ
eth_header_len = 14

-- Two bytes, the high one first.
unfoldable pub read_be16 : List ℕ → ℕ → Scan ℕ
read_be16 span_bytes i = do
  hi ← at span_bytes i
  lo ← at span_bytes (i + 1)
  done ((hi * 2 ^ 8 + lo) % 2 ^ 16)

abbrev pub transport_of : ℕ → Transport
transport_of proto = if proto == 6 then tcp else udp

abbrev pub is_handled : ℕ → Bool
is_handled proto = proto == 6 || proto == 17

unfoldable pub read_ports : List ℕ → ℕ → PacketMetadata → Scan PacketMetadata
unfolding read_be16
read_ports frame offset meta = do
  source ← read_be16 frame offset
  destination ← read_be16 frame (offset + 2)
  done (record meta { source_port = source; destination_port = destination })

-- A DNS message: the response code, and the first question's name if there is a question.
unfoldable pub read_dns : List ℕ → PacketMetadata → Scan PacketMetadata
unfolding read_be16
read_dns payload meta =
    let message = do
      qdcount ← read_be16 payload 4
      flags ← at payload 3
      let coded = record meta { has_dns_response_code = true; dns_response_code = flags % 2 ^ 4 }
      let named = do
        rest_len ← minus (length payload) 12
        question ← bytes_at payload 12 rest_len
        name ← parse_dns_qname question
        done (record coded { dns_query_name = name })
      if leb 1 qdcount then named else done coded
    in if leb 12 (length payload) then message else done meta

-- The UDP branch. The declared length is read and compared, to no effect.
unfoldable pub read_udp : List ℕ → ℕ → PacketMetadata → Scan PacketMetadata
unfolding read_ports read_dns
read_udp frame offset meta = do
  ported ← read_ports frame offset meta
  dgram_len ← read_be16 frame (offset + 4)
  let dns = do
    rest_len ← minus (length frame) (offset + 8)
    payload ← bytes_at frame (offset + 8) rest_len
    named ← read_dns payload ported
    done (record named { valid = true })
  if ported.destination_port == 53 || ported.source_port == 53
      then dns
      else done (record ported { valid = true })

-- From the transport header on; `remaining` is what is left of the frame.
unfoldable pub read_transport : List ℕ → ℕ → PacketMetadata → Transport → Scan PacketMetadata
unfolding read_ports read_udp
read_transport frame offset meta tcp = do
  remaining ← minus (length frame) offset
  let ports = do ported ← read_ports frame offset meta; done (record ported { valid = true })
  if ltb remaining 20 then done (record meta { transport = other }) else ports
read_transport frame offset meta _ = do
  remaining ← minus (length frame) offset
  if ltb remaining 8 then done (record meta { transport = other }) else read_udp frame offset meta

-- IPv4 behind the addresses, which are kept when the protocol is not handled.
unfoldable pub ip4_protocol : List ℕ → ℕ → Text → Text → ℕ → Scan PacketMetadata
ip4_protocol frame offset local remote proto =
    let addressed = record no_metadata { local_address = local; remote_address = remote } in
    let transported = record addressed { transport = transport_of proto } in
    if not (is_handled proto)
    then done addressed
    else read_transport frame offset transported (transport_of proto)

-- IPv6 behind the addresses; the protocol is handled.
unfoldable pub ip6_protocol : List ℕ → Text → Text → ℕ → Scan PacketMetadata
ip6_protocol frame local remote next_header =
    read_transport frame (eth_header_len + 40)
      (record no_metadata {
        local_address = local;
        remote_address = remote;
        transport = transport_of next_header;
      })
      (transport_of next_header)

module _ (format_ipv4 format_ipv6 : List ℕ → Text) where
  unfoldable pub read_ip4 : List ℕ → Scan PacketMetadata
  read_ip4 frame =
      let datagram = do
        version_ihl ← at frame eth_header_len
        let ihl = version_ihl % 2 ^ 4 * 4
        let body = do
          local ← bytes_at frame (eth_header_len + 12) 4
          remote ← bytes_at frame (eth_header_len + 16) 4
          proto ← at frame (eth_header_len + 9)
          ip4_protocol frame (eth_header_len + ihl) (format_ipv4 local) (format_ipv4 remote) proto
        if ltb ihl 20 || ltb (length frame) (eth_header_len + ihl) then done no_metadata else body
      in if ltb (length frame) (eth_header_len + 20) then done no_metadata else datagram

  unfoldable pub read_ip6 : List ℕ → Scan PacketMetadata
  read_ip6 frame =
      let datagram = do
        next_header ← at frame (eth_header_len + 6)
        let body = do
          local ← bytes_at frame (eth_header_len + 8) 16
          remote ← bytes_at frame (eth_header_len + 24) 16
          ip6_protocol frame (format_ipv6 local) (format_ipv6 remote) next_header
        if not (is_handled next_header) then done no_metadata else body
      in if ltb (length frame) (eth_header_len + 40) then done no_metadata else datagram

  unfoldable pub parse_ethernet_frame : List ℕ → Scan PacketMetadata
  parse_ethernet_frame frame =
      let ethernet = do
        eth_type ← read_be16 frame 12
        if eth_type == 0x0800
            then read_ip4 frame
            else if eth_type == 0x86DD
            then read_ip6 frame
            else done no_metadata
      in if ltb (length frame) eth_header_len then done no_metadata else ethernet
