-- ===== src/Attribution/Correlator.antt =====
-- src/attribution/correlator.hpp and correlator.cpp. Times are nanoseconds since the epoch; the
-- clock is read once in `correlate` and is its argument `now`. The mutex is left out.
pub mod Matching
pub mod Bounds
use ezcap.Attribution.Confidence.{score_evidence}
use ezcap.Base.{
  ℕ, zero, suc, ◌+◌, ◌-◌, ◌*◌, ◌^◌, Bool, true, false, not, ◌&&◌, ◌||◌, List, [], ◌∷◌, ◌++◌, Option,
  none, some, ltb, leb, ◌==◌, if◌then◌else◌, is_some, length, any, Text, text_eq,
}
use ezcap.Model.Event.{Event, NetworkInfo, BrowserInfo, ProcessInfo}
use ezcap.Model.EventTypes.{
  EventType, connection, dns, navigation, process, status, error, EventSource, ebpf, pcap, browser,
}
use ezcap.Policy.Redactor.{is_empty}

pub record NavigationObservation : Type 0 where
  pub timestamp : ℕ
  pub tab_id : ℕ
  pub window_id : ℕ
  pub host : Text
  pub url : Text
  pub title : Text
  pub navigation_id : Text
  pub frame_id : ℕ

pub record BrowserProcess : Type 0 where
  pub pid : ℕ
  pub name : Text

pub record Correlator : Type 0 where
  pub navigations : List NavigationObservation
  pub browser_processes : List BrowserProcess

-- Ten seconds.
abbrev pub navigation_window : ℕ
navigation_window = 10 * 1000000000

abbrev pub max_navigations : ℕ
max_navigations = 512

unfoldable pub abs_delta : ℕ → ℕ → ℕ
abs_delta a b = if ltb b a then a - b else b - a

-- `while (navigations_.size() > kMaxNavigations) pop_front()`.
unfoldable pub trim : List NavigationObservation → List NavigationObservation
trim [] = []
trim (n ∷ ns) = if ltb max_navigations (length (n ∷ ns)) then trim ns else n ∷ ns

unfoldable pub record_navigation : Correlator → NavigationObservation → Correlator
unfolding trim
record_navigation c observation = record c {
  navigations = trim (c.navigations ++ observation ∷ []);
}

unfoldable pub set_browser_processes : Correlator → List BrowserProcess → Correlator
set_browser_processes c processes = record c { browser_processes = processes }

unfoldable pub is_browser_process : Correlator → ℕ → Bool
is_browser_process c pid = any (λ p. p.pid == pid) c.browser_processes

abbrev pub event_host : Event → Text
event_host e = elim e.network [ none ↦ [] | some n ↦ n.dns_query_name ]

unfoldable pub nav_delta : Event → NavigationObservation → ℕ
unfolding abs_delta
nav_delta e nav = abs_delta nav.timestamp e.timestamp

unfoldable pub nav_host_match : Event → NavigationObservation → Bool
nav_host_match e nav =
    not (is_empty (event_host e)) && (not (is_empty nav.host) && text_eq (event_host e) nav.host)

-- The locals of the loop in `best_match`; `delta` starts at the largest duration.
pub record Best : Type 0 where
  pub best : Option NavigationObservation
  pub best_delta : ℕ
  pub best_host_match : Bool

abbrev pub no_best : Best
no_best = record { best = none; best_delta = 2 ^ 63 - 1; best_host_match = false }

abbrev pub same : Bool → Bool → Bool
same true b = b
same false b = not b

abbrev pub is_better : Best → Bool → ℕ → Bool
is_better b host_match delta =
    not (is_some b.best)
    || ((host_match && not b.best_host_match)
        || (same host_match b.best_host_match && ltb delta b.best_delta))

unfoldable pub consider : Event → Best → NavigationObservation → Best
consider e b nav =
    if ltb navigation_window (nav_delta e nav)
    then b
    else if is_better b (nav_host_match e nav) (nav_delta e nav)
    then record {
      best = some nav;
      best_delta = nav_delta e nav;
      best_host_match = nav_host_match e nav;
    }
    else b

unfoldable pub best_loop : Event → Best → List NavigationObservation → Best
best_loop e b [] = b
best_loop e b (nav ∷ navs) = best_loop e (consider e b nav) navs

unfoldable pub best_match : Event → List NavigationObservation → Option NavigationObservation
best_match e navs = (best_loop e no_best navs).best

-- Drops the navigations at the front that are more than four windows old.
unfoldable pub prune : ℕ → List NavigationObservation → List NavigationObservation
prune now [] = []
prune now (n ∷ ns) =
    if ltb (navigation_window * 4) (now - n.timestamp) then prune now ns else n ∷ ns

abbrev pub is_network_event : EventType → Bool
is_network_event connection = true
is_network_event dns = true
is_network_event _ = false

abbrev pub is_pcap : EventSource → Bool
is_pcap pcap = true
is_pcap _ = false

abbrev pub process_matches : Correlator → Event → Bool
process_matches c e = elim e.process [ none ↦ false | some p ↦ is_browser_process c p.pid ]

-- The second test of the host, without the test that the navigation has one.
abbrev pub host_matches : Event → Option NavigationObservation → Bool
host_matches e none = false
host_matches e (some m) = elim e.network [
  | none ↦ false
  | some n ↦ not (is_empty n.dns_query_name) && text_eq n.dns_query_name m.host
]

unfoldable pub browser_of : NavigationObservation → BrowserInfo
browser_of m = record {
  tab_id = m.tab_id;
  window_id = m.window_id;
  url = m.url;
  title = m.title;
  navigation_id = m.navigation_id;
  frame_id = m.frame_id;
}

-- The association is attached from the probable band on.
unfoldable pub attach : Event → Option NavigationObservation → ℕ → Event
unfolding browser_of
attach e none confidence = record e { confidence = confidence }
attach e (some m) confidence =
    if leb 40 confidence
    then record e { confidence = confidence; browser = some (browser_of m) }
    else record e { confidence = confidence }

abbrev pub confidence_of : Correlator → Event → Option NavigationObservation → ℕ
confidence_of c e match =
    score_evidence (process_matches c e) (is_some match) (host_matches e match) false
      (is_pcap e.source)

unfoldable pub correlate : Correlator → ℕ → Event → Correlator × Event
correlate c now e =
    if not (is_network_event e.type)
    then (c, e)
    else let navs = prune now c.navigations in
      let match = best_match e navs in
      (record c { navigations = navs }, attach e match (confidence_of c e match))
