-- ===== src/Daemon/Capture.antt =====
-- What reaches the subscribers and the store.
use ezcap.Attribution.Correlator.{NavigationObservation, BrowserProcess, correlate}
use mathlib.Core.Path.{subst}
use ezcap.Base.{
  ℕ, ◌%◌, ◌^◌, Bool, true, false, ◌&&◌, ◌||◌, List, [], ◌∷◌, Option, none, some, ◌≡◌, ◌≢◌, refl,
  sym, ap, arith, if◌then◌else◌, length, length-append, All, All-append, Bool-cases, inl, inr,
}
use ezcap.Daemon.{
  Config, Backend, Delivery, Daemon, new_daemon, next, is_drop, deliver, on_capture_event,
  run_round, observe_navigation, observe_processes, stop,
}
use ezcap.Daemon.Start.{StartAnswers, choose_backend, serve, start}
use ezcap.Model.Event.{Event}
use ezcap.Policy.Engine.Apply.{IsClean, apply-IsClean}
use ezcap.Policy.Engine.{apply}
use ezcap.Policy.Types.{Policy, PolicyDecision, allow, redact, drop}

-- What happens to a daemon, in any order; an update of the policy is any new policy.
pub data Step (d : Daemon) (k : Daemon) : Type 0 where
  starting : (a : StartAnswers) → k ≡ (start a d).1 → Step d k
  capturing :
      (accepted : Bool) (now : ℕ) (e : Event) → k ≡ on_capture_event accepted now e d → Step d k
  rounding : (dropped : ℕ) → k ≡ run_round dropped d → Step d k
  navigating :
      (observation : NavigationObservation) → k ≡ observe_navigation observation d → Step d k
  observing : (processes : List BrowserProcess) → k ≡ observe_processes processes d → Step d k
  updating : (p : Policy) → k ≡ record d { policy = p } → Step d k
  stopping : k ≡ stop d → Step d k

pub data Reach (config : Config) : Daemon → Type 0 where
  created : Reach config (new_daemon config)
  later : {d k : Daemon} → Reach config d → Step d k → Reach config k

-- An event that was passed on is clean under the policy that was in force, and the published ones
-- are counted.
pub record IsAudited (d : Daemon) : Type 0 where
  pub clean : All (λ v. IsClean v.policy v.event) d.deliveries
  pub counted : d.events_published ≡ length d.deliveries % 2 ^ 64

not_dropped : (decision : PolicyDecision) → is_drop decision ≡ false → decision ≢ drop
not_dropped allow h e = cc
not_dropped redact h e = cc
not_dropped drop h e = cc

-- Only what the log and its counter say is kept.
same-IsAudited :
    (d k : Daemon)
    → k.deliveries ≡ d.deliveries
    → k.events_published ≡ d.events_published
    → IsAudited d
    → IsAudited k
same-IsAudited d k log count v = record {
  clean = rw log v.clean;
  counted = rw (log, count) v.counted;
}

deliver-IsAudited :
    (accepted : Bool) (decision : PolicyDecision) (e : Event) (d : Daemon)
    → (decision ≢ drop → IsClean d.policy e)
    → IsAudited d
    → IsAudited (deliver accepted decision e d)
unfolding deliver
deliver-IsAudited accepted decision e d clean v = elim (Bool-cases (is_drop decision)) [
  | inl dropped ↦ rw dropped (record { clean = v.clean; counted = v.counted })
  | inr kept ↦
      let entry : Delivery = record {
        policy = d.policy;
        event = e;
        broadcast = d.has_server;
        stored = d.has_store && accepted;
      } in
      let longer = length-append d.deliveries (entry ∷ []) in
      rw kept (record {
        clean =
            All-append (λ v. IsClean v.policy v.event) d.deliveries (entry ∷ []) v.clean
              (clean (not_dropped decision kept), tt);
        counted = omega (arith, v.counted, longer);
      })
]

on_capture_event-IsAudited :
    (accepted : Bool) (now : ℕ) (e : Event) (d : Daemon)
    → IsAudited d
    → IsAudited (on_capture_event accepted now e d)
unfolding on_capture_event
on_capture_event-IsAudited accepted now e d v =
    let (correlator, correlated) = correlate d.correlator now e in
    deliver-IsAudited accepted (apply d.policy correlated).0 (apply d.policy correlated).1
      (record d { events_seen = next d.events_seen; correlator = correlator })
      (apply-IsClean d.policy correlated) (record { clean = v.clean; counted = v.counted })

run_round-IsAudited : (n : ℕ) (d : Daemon) → IsAudited d → IsAudited (run_round n d)
unfolding run_round
run_round-IsAudited n d v = same-IsAudited d (run_round n d) (ground arith) (ground arith) v

stop-IsAudited : (d : Daemon) → IsAudited d → IsAudited (stop d)
unfolding stop
stop-IsAudited d v = same-IsAudited d (stop d) (ground arith) (ground arith) v

serve-IsAudited :
    (server_starts : Bool) (b : Option Backend) (d : Daemon)
    → IsAudited d
    → IsAudited (serve server_starts b d).1
unfolding serve
serve-IsAudited server_starts none d v = v
serve-IsAudited true (some b) d v = record { clean = v.clean; counted = v.counted }
serve-IsAudited false (some b) d v =
    stop-IsAudited (record d { backend = some b; has_server = true })
      (record { clean = v.clean; counted = v.counted })

start-on : (a : StartAnswers) (d : Daemon) → d.running ≡ true → d ≡ (start a d).1
unfolding start
start-on a d on =
    ap
      (λ b.
        (if b
          then (true, d)
          else serve a.server_starts (choose_backend a d.config)
              (record d { has_store = d.config.storage_enabled || d.has_store })).1)
      (sym on)

start-off :
    (a : StartAnswers) (d : Daemon)
    → d.running ≡ false
    → (serve a.server_starts
        (choose_backend a d.config)
        (record d { has_store = d.config.storage_enabled || d.has_store })).1
      ≡ (start a d).1
unfolding start
start-off a d off =
    ap
      (λ b.
        (if b
          then (true, d)
          else serve a.server_starts (choose_backend a d.config)
              (record d { has_store = d.config.storage_enabled || d.has_store })).1)
      (sym off)

start-IsAudited : (a : StartAnswers) (d : Daemon) → IsAudited d → IsAudited (start a d).1
start-IsAudited a d v = elim (Bool-cases d.running) [
  | inl on ↦ subst IsAudited (start-on a d on) v
  | inr off ↦
      let opened : Daemon = record d { has_store = d.config.storage_enabled || d.has_store } in
      subst IsAudited (start-off a d off) (
        serve-IsAudited a.server_starts (choose_backend a d.config) opened
          (record { clean = v.clean; counted = v.counted }))
]

Step-IsAudited : {d k : Daemon} → Step d k → IsAudited d → IsAudited k
unfolding observe_navigation observe_processes
Step-IsAudited {d} (starting a e) v = rw e (start-IsAudited a d v)
Step-IsAudited {d} (capturing accepted now ev e) v =
    rw e (on_capture_event-IsAudited accepted now ev d v)
Step-IsAudited {d} (rounding n e) v = rw e (run_round-IsAudited n d v)
Step-IsAudited {d} (navigating observation e) v =
    rw e (record { clean = v.clean; counted = v.counted })
Step-IsAudited {d} (observing processes e) v =
    rw e (record { clean = v.clean; counted = v.counted })
Step-IsAudited {d} (updating p e) v = rw e (record { clean = v.clean; counted = v.counted })
Step-IsAudited {d} (stopping e) v = rw e (stop-IsAudited d v)

new_daemon-IsAudited : (config : Config) → IsAudited (new_daemon config)
unfolding new_daemon
new_daemon-IsAudited config = record { clean = tt; counted = refl }

-- Whatever a daemon goes through, in any order: every event that it has passed on to subscribers or
-- to its store is clean under the policy that was in force when it did, and the published events
-- are as many as it counts, on 64 bits.
pub Reach-IsAudited : {config : Config} {d : Daemon} → Reach config d → IsAudited d
Reach-IsAudited {config} created = new_daemon-IsAudited config
Reach-IsAudited (later r s) = Step-IsAudited s (Reach-IsAudited r)
