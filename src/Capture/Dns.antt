-- ===== src/Capture/Dns.antt =====
-- `parse_dns_qname` of src/capture/packet_parser.cpp. The loop runs for at most 128 labels, which is
-- its own bound and the model's recursion.
pub mod Bounds
pub mod RoundTrip
use ezcap.Base.{
  ℕ, zero, suc, ◌+◌, ◌/◌, ◌%◌, Bool, true, false, not, ◌&&◌, ◌||◌, List, [], ◌∷◌, ◌++◌, ltb, leb,
  ◌==◌, if◌then◌else◌, length, Text,
}
use ezcap.Capture.Scan.{Scan, oob, rejected, done, ◌>>=◌, ◌>>◌, require, at}
use ezcap.Policy.Redactor.{is_empty}

-- The conservative printable subset.
abbrev pub is_name_byte : ℕ → Bool
is_name_byte ch =
    (leb b'a' ch && leb ch b'z')
    || ((leb b'A' ch && leb ch b'Z')
        || ((leb b'0' ch && leb ch b'9') || (ch == b'-' || (ch == b'_' || ch == b'.'))))

unfoldable pub copy_label : List ℕ → ℕ → ℕ → Text → Scan Text
copy_label span_bytes start zero out = done out
copy_label span_bytes start (suc n) out = do
  ch ← at span_bytes start
  require (is_name_byte ch)
  require (not (leb 253 (length out + 1)))
  copy_label span_bytes (start + 1) n (out ++ ch ∷ [])

-- A dot before every label but the first.
abbrev pub separate : Text → Scan Text
separate out =
    if not (is_empty out)
    then (if leb 253 (length out + 1) then rejected else done (out ++ b'.' ∷ []))
    else done out

-- `(label_len & 0xC0) != 0 || label_len > 63`
abbrev pub is_bad_length : ℕ → Bool
is_bad_length label_len = not (label_len / 64 % 4 == 0) || ltb 63 label_len

-- One label of `label_len` bytes behind position `i`, which holds its length.
unfoldable pub add_label : List ℕ → ℕ → ℕ → Text → Scan Text
unfolding copy_label
add_label span_bytes i label_len out = do
  dotted ← separate out
  copy_label span_bytes (i + 1) label_len dotted

unfoldable pub qname_loop : ℕ → List ℕ → ℕ → Text → Scan Text
unfolding add_label
qname_loop zero span_bytes i out = rejected
qname_loop (suc labels) span_bytes i out = do
  require (ltb i (length span_bytes))
  label_len ← at span_bytes i
  let rest = do
    require (not (is_bad_length label_len))
    require (leb (i + 1 + label_len) (length span_bytes))
    extended ← add_label span_bytes i label_len out
    qname_loop labels span_bytes (i + 1 + label_len) extended
  if label_len == 0 then done out else rest

unfoldable pub scan_dns_qname : List ℕ → Scan Text
unfolding qname_loop
scan_dns_qname span_bytes = qname_loop 128 span_bytes 0 []

-- Malformed names are returned as the empty string.
abbrev pub or_empty : Scan Text → Scan Text
or_empty oob = oob
or_empty rejected = done []
or_empty (done name) = done name

unfoldable pub parse_dns_qname : List ℕ → Scan Text
unfolding scan_dns_qname
parse_dns_qname span_bytes = or_empty (scan_dns_qname span_bytes)
