-- ===== src/Attribution/Correlator/Bounds.antt =====
-- The list of navigations of src/attribution/correlator.cpp, and what `correlate` attaches.
use ezcap.Attribution.Confidence.{score_evidence}
use ezcap.Attribution.Correlator.{
  NavigationObservation, Correlator, max_navigations, trim, record_navigation, prune, best_match,
  is_browser_process, browser_of, attach, correlate, is_network_event, is_pcap, process_matches,
  confidence_of,
}
use ezcap.Base.{
  ℕ, suc, ◌-◌, ◌≤◌, Bool, true, false, List, [], ◌∷◌, ◌++◌, Option, none, some, ◌≡◌, refl, ap, ◌∙◌,
  ◌⊎◌, inl, inr, arith, ltb, leb, Bool-cases, Option-cases, length, drop, length-drop, sym,
}
use ezcap.Model.Event.{Event, ProcessInfo}
use ezcap.Model.EventTypes.{pcap}

-- Trimming drops from the front what is too much, and no more.
trim-drop : (ns : List NavigationObservation) → trim ns ≡ drop (length ns - max_navigations) ns
unfolding trim
trim-drop [] = refl
trim-drop (n ∷ ns) = elim (Bool-cases (ltb max_navigations (length (n ∷ ns)))) [
  | inl long ↦
      let step : length (n ∷ ns) - max_navigations ≡ suc (length ns - max_navigations) =
        ground arith in
      rw long (trim-drop ns ∙ ap (λ k. drop k (n ∷ ns)) (sym step))
  | inr short ↦
      let stay : length (n ∷ ns) - max_navigations ≡ 0 = ground arith in
      rw short (ap (λ k. drop k (n ∷ ns)) (sym stay))
]

length-drop_le :
    (ns : List NavigationObservation)
    → length (drop (length ns - max_navigations) ns) ≤ max_navigations
length-drop_le ns = omega (arith, length-drop (length ns - max_navigations) ns)

-- A new navigation goes to the end, the oldest go from the front, and at most 512 are kept: the
-- list is exactly the last 512 of what was recorded.
pub record_navigation_bounded :
    (c : Correlator) (n : NavigationObservation)
    → let all = c.navigations ++ n ∷ [] in
      ((record_navigation c n).navigations ≡ drop (length all - max_navigations) all)
      × (length (record_navigation c n).navigations ≤ max_navigations)
unfolding record_navigation
record_navigation_bounded c n =
    let all = c.navigations ++ n ∷ [] in (trim-drop all, rw (trim-drop all) (length-drop_le all))

-- What `correlate` may return for the event `e`.
pub record IsJustified (c : Correlator) (now : ℕ) (e r : Event) : Type 0 where
  -- Everything but the confidence and the browser part stays.
  pub rest : r ≡ record e { confidence = r.confidence; browser = r.browser }
  -- A browser part that is not the event's own is that of the best navigation, and the event's
  -- process is a known browser process.
  pub evidence :
      (r.browser ≡ e.browser)
      ⊎ ((m : NavigationObservation) × (best_match e (prune now c.navigations) ≡ some m)
          × (r.browser ≡ some (browser_of m))
          × (p : ProcessInfo) × (e.process ≡ some p)
          × (is_browser_process c p.pid ≡ true))
  -- An event of the network is never direct, nor above probable if it comes from pcap.
  pub capped : is_network_event e.type ≡ true → r.confidence ≤ 70
  pub pcap_capped : is_network_event e.type ≡ true → e.source ≡ pcap → r.confidence ≤ 69

score_bounds :
    (process temporal host pcap_only : Bool)
    → (score_evidence process temporal host false pcap_only ≤ 70)
      × (pcap_only ≡ true → score_evidence process temporal host false pcap_only ≤ 69)
      × (40 ≤ score_evidence process temporal host false pcap_only → process ≡ true)
unfolding score_evidence
score_bounds process temporal host pcap_only = (ground arith, ground arith, ground arith)

attach-rest :
    (e : Event) (o : Option NavigationObservation) (k : ℕ)
    → (attach e o k
        ≡ record e { confidence = (attach e o k).confidence; browser = (attach e o k).browser })
      × ((attach e o k).confidence ≡ k)
unfolding attach
attach-rest e none k = (refl, refl)
attach-rest e (some m) k = elim (Bool-cases (leb 40 k)) [
  | inl high ↦ rw high (refl, refl)
  | inr low ↦ rw low (refl, refl)
]

attach-browser :
    (e : Event) (o : Option NavigationObservation) (k : ℕ)
    → ((attach e o k).browser ≡ e.browser)
      ⊎ ((m : NavigationObservation) × (o ≡ some m)
          × ((attach e o k).browser ≡ some (browser_of m))
          × (40 ≤ k))
unfolding attach
attach-browser e none k = inl refl
attach-browser e (some m) k = elim (Bool-cases (leb 40 k)) [
  | inl high ↦ inr (m, refl, ground arith, ground arith)
  | inr low ↦ inl (ground arith)
]

matched_process :
    (c : Correlator) (e : Event)
    → process_matches c e ≡ true
    → (p : ProcessInfo) × (e.process ≡ some p) × (is_browser_process c p.pid ≡ true)
matched_process c e h = elim (Option-cases e.process) [
  | inl none_there ↦ absurd (ground arith)
  | inr (p, there) ↦ (p, there, ground arith)
]

attach-IsJustified :
    (c : Correlator) (now : ℕ) (e : Event) (o : Option NavigationObservation) (k : ℕ)
    → best_match e (prune now c.navigations) ≡ o
    → (k ≤ 70) × (is_pcap e.source ≡ true → k ≤ 69) × (40 ≤ k → process_matches c e ≡ true)
    → IsJustified c now e (attach e o k)
attach-IsJustified c now e o k found (cap, pcap_cap, process) =
    let (rest, kept) = attach-rest e o k in
    record {
      rest = rest;
      evidence = elim (attach-browser e o k) [
        | inl none_new ↦ inl none_new
        | inr (m, is_m, attached, high) ↦
            let (p, there, known) = matched_process c e (process high) in
            inr (m, found ∙ is_m, attached, p, there, known)
      ];
      capped = λ _. omega (arith, kept);
      pcap_capped = λ _ from. omega (arith, kept, pcap_cap (ground arith));
    }

-- `correlate` computes a confidence from evidence alone, which never reaches the direct band, nor
-- passes 0.69 for an event from pcap, and it attaches a tab only if there is a navigation in the
-- window and the event's process is a known browser process. It changes nothing else.
pub correlate-IsJustified :
    (c : Correlator) (now : ℕ) (e : Event) → IsJustified c now e (correlate c now e).1
unfolding correlate
correlate-IsJustified c now e = elim (Bool-cases (is_network_event e.type)) [
  | inr other ↦ rw other (record {
    rest = refl;
    evidence = inl refl;
    capped = λ h. absurd (ground arith);
    pcap_capped = λ h. absurd (ground arith);
  })
  | inl network ↦ rw network (
      attach-IsJustified c now e (best_match e (prune now c.navigations))
        (confidence_of c e (best_match e (prune now c.navigations))) refl
        (score_bounds (process_matches c e) _ _ (is_pcap e.source)))
]
