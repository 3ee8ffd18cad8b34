-- ===== src/Capture/Packet/Safety.antt =====
-- The reads of `parse_ethernet_frame`.
use ezcap.Base.{
  ℕ, ◌+◌, ◌-◌, ◌*◌, ◌%◌, ◌^◌, ◌≤◌, ◌<◌, true, ◌||◌, List, ◌≡◌, refl, inl, inr, arith, ltb, leb,
  ◌==◌, Bool-cases, length, take, drop, Text,
}
use ezcap.Capture.Dns.Bounds.{parse_dns_qname_bounds}
use ezcap.Capture.Packet.{
  PacketMetadata, no_metadata, eth_header_len, read_be16, transport_of, is_handled, read_ports,
  read_dns, read_udp, read_transport, ip4_protocol, ip6_protocol, read_ip4, read_ip6,
  parse_ethernet_frame,
}
use ezcap.Capture.Scan.{Scan, done, ◌>>=◌, bytes_at, at_inside}
use ezcap.Model.EventTypes.{Transport, tcp, other}

read_be16_inside : (s : List ℕ) (i : ℕ) → i + 1 < length s → (n : ℕ) × (read_be16 s i ≡ done n)
unfolding read_be16
read_be16_inside s i h =
    let (hi, first) = at_inside s i (omega arith) in
    let (lo, second) = at_inside s (i + 1) h in
    ((hi * 2 ^ 8 + lo) % 2 ^ 16, rw (first, second) refl)

read_ports_inside :
    (s : List ℕ) (i : ℕ) (meta : PacketMetadata)
    → i + 3 < length s
    → (m : PacketMetadata) × (read_ports s i meta ≡ done m)
unfolding read_ports
read_ports_inside s i meta h =
    let (source, first) = read_be16_inside s i (omega arith) in
    let (destination, second) = read_be16_inside s (i + 2) (omega arith) in
    (
      record meta { source_port = source; destination_port = destination },
      ground (arith, first, second),
    )

-- The scan reads nothing out of bounds and has a result.
abbrev pub Reads : Scan PacketMetadata → Type 0
Reads m = (r : PacketMetadata) × (m ≡ done r)

Reads-bind :
    (m : Scan PacketMetadata) (f : PacketMetadata → Scan PacketMetadata)
    → Reads m
    → ((r : PacketMetadata) → Reads (f r))
    → Reads (m >>= f)
Reads-bind m f (r, e) next = let (q, d) = next r in (q, rw e d)

bytes_inside : (s : List ℕ) (i n : ℕ) → i + n ≤ length s → bytes_at s i n ≡ done (take n (drop i s))
bytes_inside s i n h = ground arith

read_dns-Reads : (s : List ℕ) (meta : PacketMetadata) → Reads (read_dns s meta)
unfolding read_dns
read_dns-Reads s meta = elim (Bool-cases (leb 12 (length s))) [
  | inr short ↦ (meta, ground arith)
  | inl long ↦
      let (qdcount, counted) = read_be16_inside s 4 (ground arith) in
      let (flags, flagged) = at_inside s 3 (ground arith) in
      let (name, named, small, plain) = parse_dns_qname_bounds (take (length s - 12) (drop 12 s)) in
      elim (Bool-cases (leb 1 qdcount)) [
        | inl some_question ↦ (
          record meta {
            has_dns_response_code = true;
            dns_response_code = flags % 2 ^ 4;
            dns_query_name = name;
          },
          ground (arith, counted, flagged, bytes_inside s 12 (length s - 12), named),
        )
        | inr no_question ↦ (
          record meta { has_dns_response_code = true; dns_response_code = flags % 2 ^ 4 },
          ground (arith, counted, flagged),
        )
      ]
]

read_udp-Reads :
    (s : List ℕ) (i : ℕ) (meta : PacketMetadata) → i + 8 ≤ length s → Reads (read_udp s i meta)
unfolding read_udp
read_udp-Reads s i meta h =
    let (ported, first) = read_ports_inside s i meta (omega arith) in
    let (len, second) = read_be16_inside s (i + 4) (omega arith) in
    let payload = take (length s - (i + 8)) (drop (i + 8) s) in
    let (named, third) = read_dns-Reads payload ported in
    elim (Bool-cases (ported.destination_port == 53 || ported.source_port == 53)) [
      | inl dns ↦ (
        record named { valid = true },
        ground (arith, first, second, dns, bytes_inside s (i + 8) (length s - (i + 8)), third),
      )
      | inr plain ↦ (record ported { valid = true }, ground (arith, first, second, plain))
    ]

read_transport-Reads :
    (s : List ℕ) (i : ℕ) (meta : PacketMetadata) (t : Transport)
    → i ≤ length s
    → Reads (read_transport s i meta t)
unfolding read_transport
read_transport-Reads s i meta tcp h = elim (Bool-cases (ltb (length s - i) 20)) [
  | inl short ↦ (record meta { transport = other }, ground arith)
  | inr long ↦
      let (ported, ports) = read_ports_inside s i meta (ground arith) in
      (record ported { valid = true }, ground (arith, ports))
]
read_transport-Reads s i meta _ h = elim (Bool-cases (ltb (length s - i) 8)) [
  | inl short ↦ (record meta { transport = other }, ground arith)
  | inr long ↦ let (r, e) = read_udp-Reads s i meta (ground arith) in (r, ground (arith, e))
]

ip4_protocol-Reads :
    (s : List ℕ) (offset : ℕ) (local remote : Text) (proto : ℕ)
    → offset ≤ length s
    → Reads (ip4_protocol s offset local remote proto)
unfolding ip4_protocol
ip4_protocol-Reads s offset local remote proto h = elim (Bool-cases (is_handled proto)) [
  | inr no_protocol ↦
      (record no_metadata { local_address = local; remote_address = remote }, rw no_protocol refl)
  | inl handled ↦ rw handled (read_transport-Reads s offset _ (transport_of proto) h)
]

ip6_protocol-Reads :
    (s : List ℕ) (local remote : Text) (proto : ℕ)
    → eth_header_len + 40 ≤ length s
    → Reads (ip6_protocol s local remote proto)
unfolding ip6_protocol
ip6_protocol-Reads s local remote proto h = read_transport-Reads s 54 _ (transport_of proto) h

module _ (format_ipv4 format_ipv6 : List ℕ → Text) where
  read_ip4-Reads : (s : List ℕ) → Reads (read_ip4 format_ipv4 format_ipv6 s)
  unfolding read_ip4
  read_ip4-Reads s = elim (Bool-cases (ltb (length s) (eth_header_len + 20))) [
    | inl short ↦ (no_metadata, ground arith)
    | inr long ↦
        let (version_ihl, first) = at_inside s eth_header_len (ground arith) in
        let (proto, second) = at_inside s (eth_header_len + 9) (ground arith) in
        let ihl : ℕ = version_ihl % 2 ^ 4 * 4 in
        elim (Bool-cases (ltb ihl 20 || ltb (length s) (eth_header_len + ihl))) [
          | inl bad ↦ (no_metadata, ground (arith, first, bad))
          | inr fine ↦
              let (r, e) =
                ip4_protocol-Reads s (eth_header_len + ihl)
                  (format_ipv4 (take 4 (drop (eth_header_len + 12) s)))
                  (format_ipv4 (take 4 (drop (eth_header_len + 16) s))) proto (ground arith) in
              (
                r,
                ground (
                  arith,
                  first,
                  fine,
                  second,
                  bytes_inside s (eth_header_len + 12) 4,
                  bytes_inside s (eth_header_len + 16) 4,
                  e,
                ),
              )
        ]
  ]

  read_ip6-Reads : (s : List ℕ) → Reads (read_ip6 format_ipv4 format_ipv6 s)
  unfolding read_ip6
  read_ip6-Reads s = elim (Bool-cases (ltb (length s) (eth_header_len + 40))) [
    | inl short ↦ (no_metadata, ground arith)
    | inr long ↦
        let (next_header, first) = at_inside s (eth_header_len + 6) (ground arith) in
        elim (Bool-cases (is_handled next_header)) [
          | inr no_protocol ↦ (no_metadata, ground (arith, first, no_protocol))
          | inl handled ↦
              let (r, e) =
                ip6_protocol-Reads s (format_ipv6 (take 16 (drop (eth_header_len + 8) s)))
                  (format_ipv6 (take 16 (drop (eth_header_len + 24) s))) next_header
                  (ground arith) in
              (
                r,
                ground (
                  arith,
                  first,
                  handled,
                  bytes_inside s (eth_header_len + 8) 16,
                  bytes_inside s (eth_header_len + 24) 16,
                  e,
                ),
              )
        ]
  ]

  -- The parser reads no byte outside the frame and never wraps a length, whatever the frame is,
  -- and it always returns metadata.
  pub parse_ethernet_frame-Reads :
      (s : List ℕ) → Reads (parse_ethernet_frame format_ipv4 format_ipv6 s)
  unfolding parse_ethernet_frame
  parse_ethernet_frame-Reads s = elim (Bool-cases (ltb (length s) eth_header_len)) [
    | inl short ↦ (no_metadata, ground arith)
    | inr long ↦
        let (eth_type, first) = read_be16_inside s 12 (ground arith) in
        let (four, e4) = read_ip4-Reads s in
        let (six, e6) = read_ip6-Reads s in
        elim (Bool-cases (eth_type == 0x0800)) [
          | inl is4 ↦ (four, ground (arith, first, is4, e4))
          | inr not4 ↦ elim (Bool-cases (eth_type == 0x86DD)) [
            | inl is6 ↦ (six, ground (arith, first, not4, is6, e6))
            | inr neither ↦ (no_metadata, ground (arith, first, not4, neither))
          ]
        ]
  ]
