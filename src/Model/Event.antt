-- ===== src/Model/Event.antt =====
-- include/ezcap/event.hpp: the normalised event. A time point is its count of nanoseconds since
-- the epoch, ports, pids and uids are numbers, and a confidence is counted in hundredths.
use ezcap.Base.{ℕ, Bool, true, false, ◌||◌, List, [], Option, none, Text}
use ezcap.Model.EventTypes.{EventType, connection, EventSource, pcap, Transport, Direction}
use ezcap.Model.Protocol.{event_schema_version}

pub record ProcessInfo : Type 0 where
  pub pid : ℕ
  pub name : Text
  pub uid : Option ℕ

pub record NetworkInfo : Type 0 where
  pub transport : Transport
  pub direction : Direction
  pub local_address : Text
  pub local_port : ℕ
  pub remote_address : Text
  pub remote_port : ℕ
  pub dns_query_name : Text
  pub dns_response_code : Option ℕ
  pub interface : Text
  pub backend : EventSource

pub record BrowserInfo : Type 0 where
  pub tab_id : ℕ
  pub window_id : ℕ
  pub url : Text
  pub title : Text
  pub navigation_id : Text
  pub frame_id : ℕ

-- `std::array<bool, 5>`, indexed by `RedactionKind`.
pub record Redactions : Type 0 where
  pub query_string : Bool
  pub fragment : Bool
  pub hostname_hash : Bool
  pub hostname_mask : Bool
  pub domain_excluded : Bool

abbrev pub no_redactions : Redactions
no_redactions = record {
  query_string = false;
  fragment = false;
  hostname_hash = false;
  hostname_mask = false;
  domain_excluded = false;
}

-- The loop that ors the kinds of one redactor call into the annotations of an event.
unfoldable pub merge : Redactions → Redactions → Redactions
merge a b = record {
  query_string = a.query_string || b.query_string;
  fragment = a.fragment || b.fragment;
  hostname_hash = a.hostname_hash || b.hostname_hash;
  hostname_mask = a.hostname_mask || b.hostname_mask;
  domain_excluded = a.domain_excluded || b.domain_excluded;
}

pub record PrivacyInfo : Type 0 where
  pub redacted : Bool
  pub metadata_only : Bool
  pub redactions : Redactions

pub record BackendStatus : Type 0 where
  pub name : EventSource
  pub active : Bool
  pub detail : Text

pub record Event : Type 0 where
  pub schema_version : ℕ
  pub event_id : Text
  pub type : EventType
  pub source : EventSource
  pub timestamp : ℕ
  pub confidence : ℕ
  pub correlation_id : Text
  pub process : Option ProcessInfo
  pub network : Option NetworkInfo
  pub browser : Option BrowserInfo
  pub privacy : PrivacyInfo
  pub backend_statuses : List BackendStatus
  pub error_code : Text
  pub error_message : Text

-- `Event event;`: the members' initialisers.
abbrev pub new_event : Event
new_event = record {
  schema_version = event_schema_version;
  event_id = [];
  type = connection;
  source = pcap;
  timestamp = 0;
  confidence = 0;
  correlation_id = [];
  process = none;
  network = none;
  browser = none;
  privacy = record { redacted = false; metadata_only = true; redactions = no_redactions };
  backend_statuses = [];
  error_code = [];
  error_message = [];
}
