-- ===== src/Daemon.antt =====
-- src/daemon/daemon.cpp and .hpp, and the fields of src/daemon/config.hpp: the daemon that joins the
-- parts. The atomic counters have 64 bits. What the system and the other parts answer is an argument.
pub mod Capture
pub mod Start
pub mod Requests
pub mod PrivacySettings
pub mod Settings
use ezcap.Attribution.Correlator.{
  Correlator, NavigationObservation, BrowserProcess, correlate, record_navigation,
  set_browser_processes,
}
use ezcap.Base.{
  ℕ, ◌+◌, ◌*◌, ◌%◌, ◌^◌, Bool, true, false, not, ◌&&◌, ◌||◌, List, [], ◌∷◌, ◌++◌, Option, none,
  some, ltb, leb, if◌then◌else◌, is_some, Text, codes,
}
use ezcap.Model.Event.{Event}
use ezcap.Policy.Engine.{initial, apply}
use ezcap.Policy.Types.{Policy, default_policy, PolicyDecision, allow, redact, drop}

-- Durations are in seconds, but for the status interval in milliseconds.
pub record Config : Type 0 where
  pub socket_path : Text
  pub log_level : Text
  pub log_file : Text
  pub prefer_ebpf : Bool
  pub pcap_fallback : Bool
  pub interfaces : List Text
  pub pcap_filter : Text
  pub policy : Policy
  pub storage_enabled : Bool
  pub storage_path : Text
  pub storage_retention : ℕ
  pub status_interval : ℕ
  pub max_events_per_second : ℕ

abbrev pub default_config : Config
default_config = record {
  socket_path = codes "/run/ezcap/ezcap.sock";
  log_level = codes "info";
  log_file = [];
  prefer_ebpf = true;
  pcap_fallback = true;
  interfaces = [];
  pcap_filter = codes "ip or ip6";
  policy = default_policy;
  storage_enabled = false;
  storage_path = codes "/var/lib/ezcap/events.db";
  storage_retention = 86400 * 7;
  status_interval = 1000;
  max_events_per_second = 0;
}

-- The backend that is running; a pcap backend has its interface.
pub data Backend : Type 0 where
  ebpf_backend : Backend
  pcap_backend : Text → Backend

-- An event that was passed on: under which policy, and whether to the subscribers and to the store.
pub record Delivery : Type 0 where
  pub policy : Policy
  pub event : Event
  pub broadcast : Bool
  pub stored : Bool

-- The members of `Daemon`; `deliveries` is what has been passed on so far, the first one first.
pub record Daemon : Type 0 where
  pub config : Config
  pub policy : Policy
  pub correlator : Correlator
  pub backend : Option Backend
  pub has_server : Bool
  pub has_store : Bool
  pub running : Bool
  pub events_seen : ℕ
  pub events_published : ℕ
  pub events_dropped : ℕ
  pub deliveries : List Delivery

-- Daemon::Daemon.
unfoldable pub new_daemon : Config → Daemon
new_daemon config = record {
  config = config;
  policy = initial;
  correlator = record { navigations = []; browser_processes = [] };
  backend = none;
  has_server = false;
  has_store = false;
  running = false;
  events_seen = 0;
  events_published = 0;
  events_dropped = 0;
  deliveries = [];
}

-- `fetch_add(1)`.
abbrev pub next : ℕ → ℕ
next n = (n + 1) % 2 ^ 64

abbrev pub is_drop : PolicyDecision → Bool
is_drop drop = true
is_drop _ = false

-- What `on_capture_event` does behind `apply`; `accepted` is what the store answers.
unfoldable pub deliver : Bool → PolicyDecision → Event → Daemon → Daemon
deliver accepted decision e d =
    if is_drop decision then record d { events_dropped = next d.events_dropped } else record d {
      events_dropped =
          if d.has_store && not accepted then next d.events_dropped else d.events_dropped;
      events_published = next d.events_published;
      deliveries =
          d.deliveries
          ++ record {
            policy = d.policy;
            event = e;
            broadcast = d.has_server;
            stored = d.has_store && accepted;
          }
            ∷ [];
    }

-- `now` is the correlator's clock.
unfoldable pub on_capture_event : Bool → ℕ → Event → Daemon → Daemon
unfolding deliver
on_capture_event accepted now e d =
    let (correlator, correlated) = correlate d.correlator now e in
    let (decision, cleaned) = apply d.policy correlated in
    deliver accepted decision cleaned
      (record d { events_seen = next d.events_seen; correlator = correlator })

-- One round of the loop of `run`, but for its sleep, the status and the pruning of the store:
-- `dropped` is what the server counts.
unfoldable pub run_round : ℕ → Daemon → Daemon
run_round dropped d = if d.has_server then record d { events_dropped = dropped } else d

unfoldable pub observe_navigation : NavigationObservation → Daemon → Daemon
observe_navigation observation d = record d {
  correlator = record_navigation d.correlator observation;
}

unfoldable pub observe_processes : List BrowserProcess → Daemon → Daemon
observe_processes processes d = record d {
  correlator = set_browser_processes d.correlator processes;
}

unfoldable pub stop : Daemon → Daemon
stop d =
    if not d.running && not d.has_server && not (is_some d.backend) && not d.has_store
    then d
    else record d { running = false; has_server = false; backend = none; has_store = false }
