-- ===== src/Attribution/Confidence/Bands.antt =====
-- The bands of the scores of src/attribution/confidence.cpp.
use ezcap.Base.{Bool, true, false, ◌≡◌, ◌↔◌, arith}
use ezcap.Attribution.Confidence.{score_evidence}
use ezcap.Model.EventTypes.{ConfidenceBand, weak, strong, direct, confidence_band}

abbrev pub band : Bool → Bool → Bool → Bool → Bool → ConfidenceBand
band process temporal host browser pcap =
    confidence_band (score_evidence process temporal host browser pcap)

-- The bands, from the evidence: only a direct browser event is direct; without one the score is
-- strong exactly if all three indirect kinds are there and the event is not pcap only, and it is
-- weak exactly if the process does not match. So pcap-only evidence never passes the probable band.
pub band_of_evidence :
    (process temporal host browser pcap : Bool)
    → ((band process temporal host browser pcap ≡ direct) ↔ (browser ≡ true))
      × ((band process temporal host browser pcap ≡ strong) ↔ (
          (browser ≡ false)
          × (process ≡ true)
          × (temporal ≡ true)
          × (host ≡ true)
          × (pcap ≡ false)))
      × ((band process temporal host browser pcap ≡ weak) ↔ ((browser ≡ false) × (process ≡ false)))
unfolding confidence_band score_evidence
band_of_evidence process temporal host browser pcap = (ground arith, ground arith, ground arith)
