-- ===== src/Tests/OfCapture.antt =====
-- Frames, names and filters.
use ezcap.Base.{
  ℕ, ◌≤◌, true, not, ◌&&◌, List, [], ◌∷◌, ◌++◌, inl, length, leb, all, Text, codes, ◌≡◌, refl,
  arith,
}
use ezcap.Capture.Scan.{done}
use ezcap.Capture.Dns.{is_name_byte, parse_dns_qname}
use ezcap.Capture.Dns.Bounds.{parse_dns_qname_bounds}
use ezcap.Capture.Dns.RoundTrip.{encode, parse_dns_qname-encode}
use ezcap.Capture.Packet.{parse_ethernet_frame, read_be16}
use ezcap.Capture.Packet.Safety.{Reads, parse_ethernet_frame-Reads}
use ezcap.Capture.Packet.Payload.{IsTcp4, parse_ethernet_frame_payload}
use ezcap.Capture.Filter.{empty, validate}
use ezcap.Capture.Filter.Words.{is_ok, is_filter_from, validate-is_ok}

abbrev labels : List Text
labels = codes "www" ∷ codes "bank" ∷ codes "com" ∷ []

parse_dns_qname_bounds_example :
    (name : Text) × (parse_dns_qname (encode labels) ≡ done name)
    × (length name ≤ 252)
    × (all is_name_byte name ≡ true)
parse_dns_qname_bounds_example = parse_dns_qname_bounds (encode labels)

parse_dns_qname-encode_example :
    parse_dns_qname (encode labels ++ 0 ∷ 1 ∷ []) ≡ done (codes "www.bank.com")
parse_dns_qname-encode_example =
    parse_dns_qname-encode labels (0 ∷ 1 ∷ [])
      (
        ground arith,
        omega arith,
        refl,
        (ground arith, omega arith, refl, (ground arith, omega arith, refl, tt)),
      )
      (omega arith) (omega arith)

-- The lengths of the addresses stand for their texts.
abbrev show : List ℕ → Text
show address = length address ∷ []

-- Ethernet, IPv4 and TCP from port 40000 to 443.
abbrev segment : List ℕ
segment =
    0 ∷ 0 ∷ 0 ∷ 0 ∷ 0 ∷ 0 ∷ 0 ∷ 0 ∷ 0 ∷ 0 ∷ 0 ∷ 0 ∷ 8 ∷ 0 ∷ 69 ∷ 0 ∷ 0 ∷ 42 ∷ 0 ∷ 0 ∷ 0 ∷ 0 ∷ 64 ∷ 6
    ∷ 0 ∷ 0 ∷ 10 ∷ 0 ∷ 0 ∷ 2 ∷ 10 ∷ 0 ∷ 0 ∷ 1 ∷ 156 ∷ 64 ∷ 1 ∷ 187 ∷ 0 ∷ 0 ∷ 0 ∷ 0 ∷ 0 ∷ 0 ∷ 0 ∷ 0
    ∷ 80 ∷ 0 ∷ 0 ∷ 0 ∷ 0 ∷ 0 ∷ 0 ∷ 0 ∷ []

segment-IsTcp4 : IsTcp4 segment
unfolding read_be16
segment-IsTcp4 = record {
  version_ihl = 69;
  ihl_at = refl;
  is_ip4 = refl;
  is_tcp = refl;
  fits = omega arith;
}

parse_ethernet_frame-Reads_example : Reads (parse_ethernet_frame show show segment)
parse_ethernet_frame-Reads_example = parse_ethernet_frame-Reads show show segment

parse_ethernet_frame_payload_example :
    parse_ethernet_frame show show (segment ++ codes "secret")
    ≡ parse_ethernet_frame show show segment
parse_ethernet_frame_payload_example =
    parse_ethernet_frame_payload segment (codes "secret") show show (inl segment-IsTcp4)

abbrev filter : Text
filter = codes "tcp and (port 443)"

validate-is_ok_example :
    is_ok (validate filter)
    ≡ (not (empty filter) && (leb (length filter) 256 && is_filter_from [] filter))
validate-is_ok_example = validate-is_ok filter
