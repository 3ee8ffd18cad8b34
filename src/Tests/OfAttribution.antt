-- ===== src/Tests/OfAttribution.antt =====
-- Two navigations, and a packet near them.
use ezcap.Base.{
  ℕ, ◌-◌, ◌≤◌, ◌*◌, [], ◌∷◌, ◌++◌, none, some, drop, length, Text, codes, ◌≡◌, ◌⊎◌, All,
}
use ezcap.Model.Event.{Event, new_event}
use ezcap.Model.EventTypes.{pcap, tcp, outbound}
use ezcap.Attribution.Correlator.{
  NavigationObservation, Correlator, record_navigation, correlate, best_match, max_navigations,
}
use ezcap.Attribution.Correlator.Matching.{IsEligible, IsBest, best_match-IsBest}
use ezcap.Attribution.Correlator.Bounds.{
  record_navigation_bounded, IsJustified, correlate-IsJustified,
}

abbrev navigation_at : ℕ → Text → NavigationObservation
navigation_at seconds host = record {
  timestamp = seconds * 1000000000;
  tab_id = 3;
  window_id = 1;
  host = host;
  url = [];
  title = [];
  navigation_id = [];
  frame_id = 0;
}

abbrev two : Correlator
two = record {
  navigations = navigation_at 100 (codes "a.org") ∷ navigation_at 104 (codes "b.org") ∷ [];
  browser_processes = record { pid = 42; name = codes "firefox" } ∷ [];
}

abbrev packet : Event
packet = record new_event {
  timestamp = 105 * 1000000000;
  process = some (record { pid = 42; name = codes "firefox"; uid = none });
  network = some (record {
    transport = tcp;
    direction = outbound;
    local_address = [];
    local_port = 40000;
    remote_address = [];
    remote_port = 443;
    dns_query_name = codes "a.org";
    dns_response_code = none;
    interface = [];
    backend = pcap;
  });
}

best_match-IsBest_example :
    ((best_match packet two.navigations ≡ none) × All (λ m. ¬ IsEligible packet m) two.navigations)
    ⊎ ((k : NavigationObservation) × (best_match packet two.navigations ≡ some k)
        × IsBest packet two.navigations k)
best_match-IsBest_example = best_match-IsBest packet two.navigations

abbrev third : NavigationObservation
third = navigation_at 106 (codes "c.org")

record_navigation_bounded_example :
    ((record_navigation two third).navigations
      ≡ drop
          (length (two.navigations ++ third ∷ []) - max_navigations)
          (two.navigations ++ third ∷ []))
    × (length (record_navigation two third).navigations ≤ max_navigations)
record_navigation_bounded_example = record_navigation_bounded two third

correlate-IsJustified_example :
    IsJustified two (106 * 1000000000) packet (correlate two (106 * 1000000000) packet).1
correlate-IsJustified_example = correlate-IsJustified two (106 * 1000000000) packet
