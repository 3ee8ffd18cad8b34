-- ===== src/Capture/Packet/Payload.antt =====
-- `parse_ethernet_frame` on the bytes behind a TCP header.
use ezcap.Base.{
  ℕ, ◌+◌, ◌*◌, ◌%◌, ◌^◌, ◌≤◌, ◌<◌, List, ◌++◌, ◌≡◌, ◌⊎◌, inl, inr, arith, length, length-append,
  get_elem?, get_elem?-append, slice-append, take, drop, Text, some,
}
use ezcap.Capture.Packet.{
  PacketMetadata, read_be16, read_ports, read_transport, ip4_protocol, ip6_protocol, read_ip4,
  read_ip6, parse_ethernet_frame,
}
use ezcap.Capture.Scan.{done, at, bytes_at}
use ezcap.Model.EventTypes.{tcp}

-- The headers of a TCP segment over IPv4 are all in `h`.
pub record IsTcp4 (h : List ℕ) : Type 0 where
  pub version_ihl : ℕ
  pub ihl_at : get_elem? h 14 ≡ some version_ihl
  pub is_ip4 : read_be16 h 12 ≡ done 0x0800
  pub is_tcp : get_elem? h 23 ≡ some 6
  pub fits : 14 + version_ihl % 2 ^ 4 * 4 + 20 ≤ length h

-- Or over IPv6.
pub record IsTcp6 (h : List ℕ) : Type 0 where
  pub is_ip6 : read_be16 h 12 ≡ done 0x86DD
  pub is_tcp : get_elem? h 20 ≡ some 6
  pub fits : 14 + 40 + 20 ≤ length h

module _ (h p : List ℕ) where
  at-append : (i : ℕ) → i < length h → at (h ++ p) i ≡ at h i
  at-append i within = rw (get_elem?-append h p i within, at)

  bytes-append : (i n : ℕ) → i + n ≤ length h → bytes_at (h ++ p) i n ≡ bytes_at h i n
  bytes-append i n within = ground (arith, length-append h p, slice-append h p i n within)

  read_be16-append : (i : ℕ) → i + 1 < length h → read_be16 (h ++ p) i ≡ read_be16 h i
  unfolding read_be16
  read_be16-append i within = rw (at-append i (omega arith), at-append (i + 1) within)

  read_ports-append :
      (i : ℕ) (meta : PacketMetadata)
      → i + 3 < length h
      → read_ports (h ++ p) i meta ≡ read_ports h i meta
  unfolding read_ports
  read_ports-append i meta within =
      rw (read_be16-append i (omega arith), read_be16-append (i + 2) (omega arith))

  read_tcp-append :
      (i : ℕ) (meta : PacketMetadata)
      → i + 20 ≤ length h
      → read_transport (h ++ p) i meta tcp ≡ read_transport h i meta tcp
  unfolding read_transport
  read_tcp-append i meta within =
      ground (arith, length-append h p, read_ports-append i meta (omega arith))

  ip4_tcp-append :
      (offset : ℕ) (local remote : Text)
      → offset + 20 ≤ length h
      → ip4_protocol (h ++ p) offset local remote 6 ≡ ip4_protocol h offset local remote 6
  unfolding ip4_protocol
  ip4_tcp-append offset local remote fits = read_tcp-append offset _ fits

  module _ (format_ipv4 format_ipv6 : List ℕ → Text) where
    read_ip4-append :
        (t : IsTcp4 h)
        → read_ip4 format_ipv4 format_ipv6 (h ++ p) ≡ read_ip4 format_ipv4 format_ipv6 h
    unfolding read_ip4
    read_ip4-append t =
        let ihl : ℕ = t.version_ihl % 2 ^ 4 * 4 in
        ground (
          arith,
          length-append h p,
          get_elem?-append h p 14,
          get_elem?-append h p 23,
          slice-append h p 26 4,
          slice-append h p 30 4,
          ip4_tcp-append (14 + ihl) (format_ipv4 (take 4 (drop 26 h)))
              (format_ipv4 (take 4 (drop 30 h))) (t.fits),
        )

    ip6_tcp-append :
        (local remote : Text)
        → 14 + 40 + 20 ≤ length h
        → ip6_protocol (h ++ p) local remote 6 ≡ ip6_protocol h local remote 6
    unfolding ip6_protocol
    ip6_tcp-append local remote fits = read_tcp-append 54 _ fits

    read_ip6-append :
        (t : IsTcp6 h)
        → read_ip6 format_ipv4 format_ipv6 (h ++ p) ≡ read_ip6 format_ipv4 format_ipv6 h
    unfolding read_ip6
    read_ip6-append t = ground (
      arith,
      length-append h p,
      get_elem?-append h p 20,
      slice-append h p 22 16,
      slice-append h p 38 16,
      ip6_tcp-append (format_ipv6 (take 16 (drop 22 h))) (format_ipv6 (take 16 (drop 38 h))) t.fits,
    )

    -- TCP payload is never inspected: a frame that holds the headers of a TCP segment, over IPv4 or
    -- IPv6, gives the same metadata whatever bytes follow the headers.
    pub parse_ethernet_frame_payload :
        IsTcp4 h ⊎ IsTcp6 h
        → parse_ethernet_frame format_ipv4 format_ipv6 (h ++ p)
          ≡ parse_ethernet_frame format_ipv4 format_ipv6 h
    unfolding parse_ethernet_frame
    parse_ethernet_frame_payload (inl t) =
        ground (arith, length-append h p, read_be16-append 12, read_ip4-append t)
    parse_ethernet_frame_payload (inr t) =
        ground (arith, length-append h p, read_be16-append 12, read_ip6-append t)
