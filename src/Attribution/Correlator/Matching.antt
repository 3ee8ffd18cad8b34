-- ===== src/Attribution/Correlator/Matching.antt =====
-- `best_match` of src/attribution/correlator.cpp, and what a best match is.
use ezcap.Attribution.Correlator.{
  NavigationObservation, navigation_window, nav_delta, nav_host_match, Best, no_best, is_better,
  consider, best_loop, best_match,
}
use mathlib.Core.Path.{subst}
use ezcap.Base.{
  ◌≤◌, true, false, List, [], ◌∷◌, none, some, ◌≡◌, refl, sym, ◌∙◌, ◌⊎◌, inl, inr, arith, ltb,
  Bool-cases, All, Elem,
}
use ezcap.Model.Event.{Event}

-- Within ten seconds of the event, before or after.
abbrev pub IsEligible : Event → NavigationObservation → Type 0
IsEligible e n = nav_delta e n ≤ navigation_window

-- `m` is no better a match than `n`: if it has the host then so has `n`, and among equals in that
-- it is not nearer in time.
abbrev pub AtMost : Event → NavigationObservation → NavigationObservation → Type 0
AtMost e m n =
    (nav_host_match e m ≡ true → nav_host_match e n ≡ true)
    × (nav_host_match e m ≡ nav_host_match e n → nav_delta e n ≤ nav_delta e m)

-- The result `n` of a search among `navs`.
abbrev pub IsBest : Event → List NavigationObservation → NavigationObservation → Type 0
IsBest e navs n = Elem n navs × IsEligible e n × All (λ m. IsEligible e m → AtMost e m n) navs

-- The locals describe their navigation.
record IsTracked (e : Event) (b : Best) (n : NavigationObservation) : Type 0 where
  found : b.best ≡ some n
  delta : b.best_delta ≡ nav_delta e n
  host : b.best_host_match ≡ nav_host_match e n
  eligible : IsEligible e n

AtMost-refl : (e : Event) (n : NavigationObservation) → AtMost e n n
AtMost-refl e n = ground arith

AtMost-trans :
    (e : Event) (l m n : NavigationObservation) → AtMost e l m → AtMost e m n → AtMost e l n
AtMost-trans e l m n p q = ground arith

-- One round: the locals describe a navigation at least as good as before, and as the one seen.
consider-IsTracked :
    (e : Event) (b : Best) (n m : NavigationObservation)
    → IsTracked e b n
    → (k : NavigationObservation) × IsTracked e (consider e b m) k
      × ((k ≡ n) ⊎ (k ≡ m))
      × AtMost e n k
      × (IsEligible e m → AtMost e m k)
unfolding consider
consider-IsTracked e b n m t = elim (Bool-cases (ltb navigation_window (nav_delta e m))) [
  | inl far ↦ (n, ground arith, inl refl, AtMost-refl e n, ground arith)
  | inr near ↦ elim (Bool-cases (is_better b (nav_host_match e m) (nav_delta e m))) [
    | inl better ↦ (m, ground arith, inr refl, ground arith, ground arith)
    | inr worse ↦ (n, ground arith, inl refl, AtMost-refl e n, ground arith)
  ]
]

best_loop-IsTracked :
    (e : Event) (navs : List NavigationObservation) (b : Best) (n : NavigationObservation)
    → IsTracked e b n
    → (k : NavigationObservation) × IsTracked e (best_loop e b navs) k
      × ((k ≡ n) ⊎ Elem k navs)
      × AtMost e n k
      × All (λ m. IsEligible e m → AtMost e m k) navs
unfolding best_loop
best_loop-IsTracked e [] b n t = (n, t, inl refl, AtMost-refl e n, tt)
best_loop-IsTracked e (m ∷ navs) b n t =
    let (j, tracked, from, above_n, above_m) = consider-IsTracked e b n m t in
    let (k, last, origin, above_j, rest) = best_loop-IsTracked e navs (consider e b m) j tracked in
    (
      k,
      last,
      elim origin [
        | inl is_j ↦ elim from [ inl is_n ↦ inl (is_j ∙ is_n) | inr is_m ↦ inr (inl (is_j ∙ is_m)) ]
        | inr later ↦ inr (inr later)
      ],
      AtMost-trans e n j k above_n above_j,
      ((λ near. AtMost-trans e m j k (above_m near) above_j), rest),
    )

-- From no navigation: none is found, or one is.
Found : Event → List NavigationObservation → Best → Type 0
Found e navs b =
    ((b.best ≡ none) × All (λ m. ¬ IsEligible e m) navs)
    ⊎ ((k : NavigationObservation) × (b.best ≡ some k) × IsBest e navs k)

skip_far :
    (e : Event) (m : NavigationObservation)
    → ltb navigation_window (nav_delta e m) ≡ true
    → consider e no_best m ≡ no_best
unfolding consider
skip_far e m far = rw far

take_near :
    (e : Event) (m : NavigationObservation)
    → ltb navigation_window (nav_delta e m) ≡ false
    → IsTracked e (consider e no_best m) m
unfolding consider
take_near e m near = ground arith

Found-far :
    (e : Event) (m : NavigationObservation) (navs : List NavigationObservation) (b : Best)
    → ltb navigation_window (nav_delta e m) ≡ true
    → Found e navs b
    → Found e (m ∷ navs) b
unfolding Found
Found-far e m navs b far (inl (nothing, outside)) = inl (nothing, (ground arith, outside))
Found-far e m navs b far (inr (k, found, (elem, near, best))) =
    inr (k, found, (inr elem, near, ((λ h. absurd (ground arith)), best)))

best_loop-Found :
    (e : Event) (navs : List NavigationObservation) → Found e navs (best_loop e no_best navs)
unfolding best_loop Found
best_loop-Found e [] = inl (refl, tt)
best_loop-Found e (m ∷ navs) = elim (Bool-cases (ltb navigation_window (nav_delta e m))) [
  | inl far ↦
      subst (λ b. Found e (m ∷ navs) (best_loop e b navs)) (sym (skip_far e m far))
        (Found-far e m navs (best_loop e no_best navs) far (best_loop-Found e navs))
  | inr near ↦
      let (k, last, origin, above_m, rest) =
        best_loop-IsTracked e navs (consider e no_best m) m (take_near e m near) in
      inr (k, last.found, (origin, last.eligible, ((λ h. above_m), rest)))
]

-- `best_match` finds nothing exactly if no retained navigation lies within ten seconds of the
-- event. Otherwise it finds one that does, and no other that does is better: one that matches the
-- event's host comes before one that does not, and then the nearer in time.
pub best_match-IsBest :
    (e : Event) (navs : List NavigationObservation)
    → ((best_match e navs ≡ none) × All (λ m. ¬ IsEligible e m) navs)
      ⊎ ((k : NavigationObservation) × (best_match e navs ≡ some k) × IsBest e navs k)
unfolding best_match Found
best_match-IsBest e navs = best_loop-Found e navs
