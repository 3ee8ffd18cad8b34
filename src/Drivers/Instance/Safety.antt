-- ===== src/Drivers/Instance/Safety.antt =====
-- Every operation on a driver, and so every life, keeps its order.
use ezcap.Base.{
  ℕ, ◌<◌, Bool, true, false, not, ◌&&◌, ◌||◌, [], ◌∷◌, ◌≡◌, refl, arith, ltb, leb, length,
  length-append, Text, Bool-cases, inl, inr,
}
use ezcap.Drivers.Instance.{
  loaded, started, failed, EngineLimits, DriverInstance, is_discovered, is_loaded, is_started,
  record_fault, LoadAnswers, load, start, on_event, stop, tear_down, register_filter, is_subscribed,
  passes_filters, CaptureFilter, is_known_type, is_known_transport,
}
use ezcap.Drivers.Manifest.{DriverManifest}
use ezcap.Model.Event.{Event}
use ezcap.Policy.Redactor.{is_empty}
use ezcap.Drivers.Instance.Life.{
  Step, loading, starting, event, stopping, filtering, Reach, fresh, later, IsOrderly,
  new_instance-IsOrderly, changed, record_fault-IsOrderly, over-IsOrderly, cond-IsOrderly, not-over,
  loaded-live, spent, spend-over,
}

module _ (m : DriverManifest) (limits : EngineLimits)
    (some_faults : 0 < limits.fault_threshold) where
  load-IsOrderly :
      (a : LoadAnswers) (i : DriverInstance)
      → IsOrderly m limits i
      → IsOrderly m limits (load a i).1
  unfolding load
  load-IsOrderly a i v =
      let failing : (t : Bool)
          → t ≡ true
          → IsOrderly m limits (record i { state = failed; has_sandbox = false }) =
        λ _ _. over-IsOrderly m limits some_faults i v in
      cond-IsOrderly m limits some_faults (not (is_discovered i.state)) _ _ (λ _. v)
        (λ new.
          cond-IsOrderly m limits some_faults (not a.created) _ _ (failing (not a.created)) (λ _.
            cond-IsOrderly m limits some_faults (not a.registered) _ _ (failing (not a.registered))
              (λ _.
                cond-IsOrderly m limits some_faults (not a.compiled) _ _ (failing (not a.compiled))
                  (λ _.
                    cond-IsOrderly m limits some_faults (not a.chunk_ok) _ _
                      (failing (not a.chunk_ok))
                      (λ _.
                        cond-IsOrderly m limits some_faults (not a.has_on_load) _ _
                          (failing (not a.has_on_load))
                          (λ _.
                            cond-IsOrderly m limits some_faults (not a.on_load_ok) _ _
                              (λ _.
                                over-IsOrderly m limits some_faults (record_fault i)
                                  (record_fault-IsOrderly m limits some_faults i v))
                              (λ _.
                                changed m limits some_faults i
                                  (record i { state = loaded; has_sandbox = true }) v
                                  (refl, refl, refl, refl) (λ h. refl)
                                  (λ h. v.few_faults (not-over i.state new)))))))))

  start-IsOrderly :
      (ok : Bool) (i : DriverInstance) → IsOrderly m limits i → IsOrderly m limits (start ok i).1
  unfolding start
  start-IsOrderly ok i v =
      cond-IsOrderly m limits some_faults (not (is_loaded i.state)) _ _ (λ _. v)
        (λ ready.
          cond-IsOrderly m limits some_faults (not ok) _ _
            (λ _. record_fault-IsOrderly m limits some_faults i v)
            (λ _.
              let (live, more) = loaded-live i.state ready in
              changed m limits some_faults i (record i { state = started }) v
                (refl, refl, refl, refl) (λ h. v.sandboxed live) (λ h. v.few_faults more)))

  on_event-IsOrderly :
      (has_on_event ok : Bool) (e : Event) (i : DriverInstance)
      → IsOrderly m limits i
      → IsOrderly m limits (on_event has_on_event ok e i).1
  unfolding on_event
  on_event-IsOrderly has_on_event ok e i v =
      cond-IsOrderly m limits some_faults (not (is_started i.state) || not i.has_sandbox) _ _
        (λ _. v)
        (λ _.
          cond-IsOrderly m limits some_faults (not (is_subscribed i.manifest e)) _ _ (λ _. v)
            (λ _.
              cond-IsOrderly m limits some_faults (not (passes_filters e i.capture_filters)) _ _
                (λ _. v)
                (λ _.
                  cond-IsOrderly m limits some_faults (not has_on_event) _ _ (λ _. v)
                    (λ _.
                      cond-IsOrderly m limits some_faults (not ok) _ _
                        (λ _. record_fault-IsOrderly m limits some_faults i v) (λ _. v)))))

  tear_down-IsOrderly :
      (i : DriverInstance) → IsOrderly m limits i → IsOrderly m limits (tear_down i)
  tear_down-IsOrderly i v =
      changed m limits some_faults i (tear_down i) v (refl, refl, refl, refl)
        (λ h. absurd (spent i.state h)) (λ h. v.few_faults (spend-over i.state h))

  stop-IsOrderly :
      (ok : Bool) (i : DriverInstance) → IsOrderly m limits i → IsOrderly m limits (stop ok i)
  unfolding stop
  stop-IsOrderly ok i v = elim (Bool-cases (is_started i.state && i.has_sandbox && not ok)) [
    | inl t ↦
        rw t
          (tear_down-IsOrderly (record_fault i) (record_fault-IsOrderly m limits some_faults i v))
    | inr f ↦ rw f (tear_down-IsOrderly i v)
  ]

  register_filter-IsOrderly :
      (event_type transport : Text) (permille : ℕ) (i : DriverInstance)
      → IsOrderly m limits i
      → IsOrderly m limits (register_filter event_type transport permille i).1
  unfolding register_filter
  register_filter-IsOrderly event_type transport permille i v =
      cond-IsOrderly m limits some_faults
        (leb i.host_limits.max_subscriptions (length i.capture_filters)) _ _ (λ _. v)
        (λ room.
          cond-IsOrderly m limits some_faults (ltb 32 (length event_type)) _ _ (λ _. v)
            (λ _.
              cond-IsOrderly m limits some_faults
                (not (is_empty event_type) && not (is_known_type event_type)) _ _ (λ _. v)
                (λ _.
                  cond-IsOrderly m limits some_faults (ltb 8 (length transport)) _ _ (λ _. v)
                    (λ _.
                      cond-IsOrderly m limits some_faults
                        (not (is_empty transport) && not (is_known_transport transport)) _ _
                        (λ _. v)
                        (λ _.
                          cond-IsOrderly m limits some_faults (ltb 1000 permille) _ _ (λ _. v)
                            (λ _.
                              let filter : CaptureFilter = record {
                                event_type = event_type;
                                transport = transport;
                                min_confidence_permille = permille;
                              } in
                              let longer = length-append i.capture_filters (filter ∷ []) in
                              record {
                                same_manifest = v.same_manifest;
                                same_limits = v.same_limits;
                                sandboxed = v.sandboxed;
                                few_faults = v.few_faults;
                                few_filters = ground (arith, room, longer);
                                lowered = v.lowered;
                              }))))))

  Step-IsOrderly : {i j : DriverInstance} → Step i j → IsOrderly m limits i → IsOrderly m limits j
  Step-IsOrderly {i} (loading a e) v = rw e (load-IsOrderly a i v)
  Step-IsOrderly {i} (starting ok e) v = rw e (start-IsOrderly ok i v)
  Step-IsOrderly {i} (event has_on_event ok ev e) v =
      rw e (on_event-IsOrderly has_on_event ok ev i v)
  Step-IsOrderly {i} (stopping ok e) v = rw e (stop-IsOrderly ok i v)
  Step-IsOrderly {i} (filtering event_type transport permille e) v =
      rw e (register_filter-IsOrderly event_type transport permille i v)

  -- Whatever the owner of a driver calls, in any order and with any answers of the script, a driver
  -- that is loaded or started has its sandbox, one that is not quarantined or failed has fewer
  -- faults than the threshold, and its filters are at most as many as the engine and the manifest
  -- allow. The threshold is positive.
  pub Reach-IsOrderly : {i : DriverInstance} → Reach m limits i → IsOrderly m limits i
  Reach-IsOrderly fresh = new_instance-IsOrderly m limits some_faults
  Reach-IsOrderly (later r st) = Step-IsOrderly st (Reach-IsOrderly r)
