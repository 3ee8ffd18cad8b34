-- ===== src/Capture/Normalizer.antt =====
-- src/capture/event_normalizer.cpp: events from what a backend has seen. What /dev/urandom gives, the
-- counter of ids and the clock are arguments; the machine stores the low byte of a number first.
use ezcap.Base.{
  ℕ, zero, suc, ◌+◌, ◌/◌, ◌%◌, List, [], ◌∷◌, ◌++◌, Option, none, some, ◌==◌, if◌then◌else◌, length,
  take, drop, replicate, Text, ◌≡◌, refl, ap, arith,
}
use ezcap.Capture.Packet.{PacketMetadata}
use ezcap.Model.Event.{Event, NetworkInfo, BackendStatus, new_event}
use ezcap.Model.EventTypes.{connection, dns, status, error, pcap}
use ezcap.Policy.Redactor.{hex_digit}

-- The bytes that were read, or zeros where they are not sixteen.
unfoldable pub random_bytes : Option Text → Text
random_bytes none = replicate 16 0
random_bytes (some bytes) = if length bytes == 16 then bytes else replicate 16 0

-- The `count` low bytes of a number.
unfoldable pub low_bytes : ℕ → ℕ → Text
low_bytes zero n = []
low_bytes (suc count) n = n % 256 ∷ low_bytes count (n / 256)

abbrev pub change_at : ℕ → (ℕ → ℕ) → Text → Text
change_at i f [] = []
change_at zero f (b ∷ bytes) = f b ∷ bytes
change_at (suc i) f (b ∷ bytes) = b ∷ change_at i f bytes

-- `(b & 0x0F) | 0x40` and `(b & 0x3F) | 0x80`.
abbrev pub version_bits : ℕ → ℕ
version_bits b = b % 16 + 64

abbrev pub variant_bits : ℕ → ℕ
variant_bits b = b % 64 + 128

unfoldable pub uuid_bytes : Option Text → ℕ → Text
unfolding random_bytes low_bytes
uuid_bytes random seq =
    change_at 8 variant_bits
      (change_at 6 version_bits (take 8 (random_bytes random) ++ low_bytes 8 seq))

-- `%02x` of each byte.
unfoldable pub hex_text : Text → Text
hex_text [] = []
hex_text (b ∷ bytes) = hex_digit (b / 16) ∷ hex_digit (b % 16) ∷ hex_text bytes

abbrev pub dashed : Text → Text
dashed bytes =
    hex_text (take 4 bytes)
    ++ b'-' ∷ hex_text (take 2 (drop 4 bytes))
    ++ b'-' ∷ hex_text (take 2 (drop 6 bytes))
    ++ b'-' ∷ hex_text (take 2 (drop 8 bytes))
    ++ b'-' ∷ hex_text (take 6 (drop 10 bytes))

unfoldable pub random_uuid : Option Text → ℕ → Text
unfolding uuid_bytes hex_text
random_uuid random seq = dashed (uuid_bytes random seq)

abbrev pub network_of : PacketMetadata → Text → NetworkInfo
network_of meta interface = record {
  transport = meta.transport;
  direction = meta.direction;
  local_address = meta.local_address;
  local_port = meta.source_port;
  remote_address = meta.remote_address;
  remote_port = meta.destination_port;
  dns_query_name = [];
  dns_response_code = none;
  interface = interface;
  backend = pcap;
}

unfoldable pub from_packet_metadata : Text → PacketMetadata → ℕ → Text → Event
from_packet_metadata id meta timestamp interface = record new_event {
  event_id = id;
  type = connection;
  source = pcap;
  timestamp = timestamp;
  confidence = 10;
  network = some (network_of meta interface);
}

unfoldable pub dns_from_packet_metadata : Text → PacketMetadata → ℕ → Text → Event
dns_from_packet_metadata id meta timestamp interface = record new_event {
  event_id = id;
  type = dns;
  source = pcap;
  timestamp = timestamp;
  confidence = 20;
  network = some (record (network_of meta interface) {
    dns_query_name = meta.dns_query_name;
    dns_response_code = if meta.has_dns_response_code then some meta.dns_response_code else none;
  });
}

unfoldable pub status_event : Text → ℕ → List BackendStatus → Event
status_event id now backends = record new_event {
  event_id = id;
  type = status;
  source = pcap;
  timestamp = now;
  confidence = 100;
  backend_statuses = backends;
}

unfoldable pub error_event : Text → ℕ → Text → Text → Event
error_event id now code message = record new_event {
  event_id = id;
  type = error;
  source = pcap;
  timestamp = now;
  confidence = 100;
  error_code = code;
  error_message = message;
}

uuid_bytes-same :
    (m n : ℕ) → m % 64 ≡ n % 64 → m / 256 ≡ n / 256 → uuid_bytes none m ≡ uuid_bytes none n
unfolding uuid_bytes low_bytes random_bytes
uuid_bytes-same m n low high =
    let first : m % 256 % 64 ≡ n % 256 % 64 = omega arith in rw (high, first) refl

-- The counter does not keep ids apart, since the variant takes two of its bits: two counts that
-- agree but for these bits give the same id where the system gives no random bytes.
random_uuid_repeats :
    (m n : ℕ) → m % 64 ≡ n % 64 → m / 256 ≡ n / 256 → random_uuid none m ≡ random_uuid none n
unfolding random_uuid
random_uuid_repeats m n low high = ap dashed (uuid_bytes-same m n low high)
