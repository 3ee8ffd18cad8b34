-- ===== src/Attribution/Confidence.antt =====
-- src/attribution/confidence.hpp and confidence.cpp. Scores and weights are counted in hundredths:
-- every constant is a whole number of them, and the double sums of the weights fall in the same
-- bands as the exact ones.
pub mod Bands
use Prim.Native.Nat.{max}
use ezcap.Base.{ℕ, ◌+◌, min, Bool, if◌then◌else◌}

abbrev pub weight_process : ℕ
weight_process = 40

abbrev pub weight_temporal : ℕ
weight_temporal = 12

abbrev pub weight_host : ℕ
weight_host = 18

abbrev pub weight_direct : ℕ
weight_direct = 95

abbrev pub pcap_attribution_cap : ℕ
pcap_attribution_cap = 69

abbrev pub no_evidence_score : ℕ
no_evidence_score = 0

-- The three additions.
abbrev pub indirect_score : Bool → Bool → Bool → ℕ
indirect_score process_match temporal_match host_match =
    (if process_match then weight_process else 0)
    + (if temporal_match then weight_temporal else 0)
    + (if host_match then weight_host else 0)

abbrev pub clamp : ℕ → ℕ → ℕ → ℕ
clamp score lo hi = min (max score lo) hi

unfoldable pub score_evidence : Bool → Bool → Bool → Bool → Bool → ℕ
score_evidence process_match temporal_match host_match direct_browser_event pcap_only =
    if direct_browser_event
    then weight_direct
    else clamp
        (if pcap_only
          then min (indirect_score process_match temporal_match host_match) pcap_attribution_cap
          else indirect_score process_match temporal_match host_match)
        no_evidence_score 100
