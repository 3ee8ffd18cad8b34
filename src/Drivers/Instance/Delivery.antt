-- ===== src/Drivers/Instance/Delivery.antt =====
-- Which events a driver gets: DriverInstance::on_event over a sequence of events.
use ezcap.Base.{
  ℕ, zero, suc, ◌+◌, ◌^◌, min, ◌<◌, Bool, true, false, List, [], ◌∷◌, ◌≡◌, refl, ◌∙◌, arith, leb,
  if◌then◌else◌, length, All,
}
use ezcap.Drivers.Instance.{
  started, quarantined, DriverInstance, record_fault, on_event, is_subscribed, passes_filters,
}
use ezcap.Model.Event.{Event}

-- The events one after the other, each to an erring or a well-behaved callback, with how many of
-- them reached the script.
unfoldable pub deliver : Bool → List Event → DriverInstance → ℕ × DriverInstance
unfolding on_event
deliver ok [] i = (0, i)
deliver ok (e ∷ es) i =
    let (called, j) = on_event true ok e i in
    let (calls, k) = deliver ok es j in (if called then suc calls else calls, k)

-- The driver wants the event: it is subscribed to it and no filter holds it back.
abbrev pub Wants : DriverInstance → Event → Type 0
Wants i e = (is_subscribed i.manifest e ≡ true) × (passes_filters e i.capture_filters ≡ true)

-- It runs: the state and the sandbox that `on_event` asks for.
abbrev pub Runs : DriverInstance → Type 0
Runs i = (i.state ≡ started) × (i.has_sandbox ≡ true)

on_event-fault :
    (e : Event) (i : DriverInstance)
    → Runs i
    → Wants i e
    → on_event true false e i ≡ (true, record_fault i)
unfolding on_event
on_event-fault e i (s, b) (w, p) = rw s (rw b (rw w (rw p refl)))

on_event-quarantined :
    (has_on_event ok : Bool) (e : Event) (i : DriverInstance)
    → i.state ≡ quarantined
    → on_event has_on_event ok e i ≡ (false, i)
unfolding on_event
on_event-quarantined has_on_event ok e i s = rw s refl

deliver-quarantined :
    (ok : Bool) (es : List Event) (i : DriverInstance)
    → i.state ≡ quarantined
    → deliver ok es i ≡ (0, i)
unfolding deliver
deliver-quarantined ok [] i s = refl
deliver-quarantined ok (e ∷ es) i s =
    rw (on_event-quarantined true ok e i s, deliver-quarantined ok es i s) refl

-- One fault more and one to spare.
record_fault-next :
    (i : DriverInstance)
    → i.faults + 1 < i.limits.fault_threshold
    → i.limits.fault_threshold < 2 ^ 32
    → ((record_fault i).faults ≡ i.faults + 1)
      × ((record_fault i).state ≡ i.state)
      × ((record_fault i).has_sandbox ≡ i.has_sandbox)
      × ((record_fault i).limits ≡ i.limits)
      × ((record_fault i).manifest ≡ i.manifest)
      × ((record_fault i).capture_filters ≡ i.capture_filters)
unfolding record_fault
record_fault-next i h small = ground arith

record_fault-last :
    (i : DriverInstance)
    → i.faults + 1 ≡ i.limits.fault_threshold
    → i.limits.fault_threshold < 2 ^ 32
    → (record_fault i).state ≡ quarantined
unfolding record_fault
record_fault-last i h small = ground arith

-- Whether a driver wants an event is up to its manifest and its filters.
Wants-All :
    (i j : DriverInstance)
    → j.manifest ≡ i.manifest
    → j.capture_filters ≡ i.capture_filters
    → (es : List Event) → All (Wants i) es
    → All (Wants j) es
Wants-All i j m c [] h = tt
Wants-All i j m c (e ∷ es) ((w, p), h) = ((rw m w, rw c p), Wants-All i j m c es h)

-- A running driver whose callback errs on every event is quarantined by the event that brings its
-- faults to the threshold: `left` more of them are delivered and no other, and until then it runs
-- on. The threshold fits its 32-bit word and the driver wants every event.
pub deliver-quarantines :
    (left : ℕ) (es : List Event) (i : DriverInstance)
    → Runs i
    → 0 < left
    → i.faults + left ≡ i.limits.fault_threshold
    → i.limits.fault_threshold < 2 ^ 32
    → All (Wants i) es
    → ((deliver false es i).0 ≡ min left (length es))
      × ((deliver false es i).1.state ≡ (if leb left (length es) then quarantined else started))
unfolding deliver
deliver-quarantines zero es i runs some_left total small wants = absurd (omega arith)
deliver-quarantines (suc left) [] i (s, b) some_left total small wants =
    (omega arith, ground (arith, s))
deliver-quarantines (suc zero) (e ∷ es) i runs some_left total small (w, wants) =
    let last = record_fault-last i (omega arith) small in
    rw (on_event-fault e i runs w, deliver-quarantined false es (record_fault i) last)
      (ground arith, rw last (ground arith))
deliver-quarantines (suc (suc left)) (e ∷ es) i (s, b) some_left total small (w, wants) =
    let (f, s', b', l', m', c') = record_fault-next i (omega arith) small in
    let (calls, state) =
      deliver-quarantines (suc left) es (record_fault i) (s' ∙ s, b' ∙ b) (omega arith)
        (ground arith) (ground arith) (Wants-All i (record_fault i) m' c' es wants) in
    rw (on_event-fault e i (s, b) w) (ground arith, state ∙ ground arith)
