-- ===== src/Drivers/Instance/Life.antt =====
-- The life of one driver, as steps that its owner takes in any order.
use ezcap.Base.{
  ℕ, ◌≤◌, ◌<◌, Bool, true, false, not, ◌≡◌, refl, ◌∙◌, arith, if◌then◌else◌, length, Text,
}
use ezcap.Drivers.Instance.{
  DriverState, discovered, loaded, started, quarantined, failed, EngineLimits, DriverInstance,
  new_instance, is_discovered, is_loaded, record_fault, LoadAnswers, load, start, on_event, stop,
  register_filter, spend,
}
use ezcap.Drivers.Manifest.{DriverManifest}
use ezcap.Model.Event.{Event}

pub data Step (i : DriverInstance) (j : DriverInstance) : Type 0 where
  loading : (a : LoadAnswers) → j ≡ (load a i).1 → Step i j
  starting : (ok : Bool) → j ≡ (start ok i).1 → Step i j
  event : (has_on_event ok : Bool) (e : Event) → j ≡ (on_event has_on_event ok e i).1 → Step i j
  stopping : (ok : Bool) → j ≡ stop ok i → Step i j
  filtering :
      (event_type transport : Text) (permille : ℕ)
      → j ≡ (register_filter event_type transport permille i).1
      → Step i j

pub data Reach (m : DriverManifest) (limits : EngineLimits) : DriverInstance → Type 0 where
  fresh : Reach m limits (new_instance m limits)
  later : {i j : DriverInstance} → Reach m limits i → Step i j → Reach m limits j

abbrev pub is_live : DriverState → Bool
is_live loaded = true
is_live started = true
is_live _ = false

abbrev pub is_over : DriverState → Bool
is_over quarantined = true
is_over failed = true
is_over _ = false

-- A driver that is loaded or started has its sandbox, one that can still run has fewer faults than
-- the threshold, and the filters are at most as many as the engine and the manifest allow.
pub record IsOrderly (m : DriverManifest) (limits : EngineLimits) (i : DriverInstance)
    : Type 0 where
  pub same_manifest : i.manifest ≡ m
  pub same_limits : i.limits ≡ limits
  pub sandboxed : is_live i.state ≡ true → i.has_sandbox ≡ true
  pub few_faults : is_over i.state ≡ false → i.faults < limits.fault_threshold
  pub few_filters : length i.capture_filters ≤ i.host_limits.max_subscriptions
  pub lowered :
      (i.host_limits.max_subscriptions ≤ limits.max_subscriptions_per_driver)
      × (i.host_limits.max_subscriptions ≤ m.max_subscriptions)

-- Only the state, the faults, the sandbox and the backoffs differ.
abbrev Changed : DriverInstance → DriverInstance → Type 0
Changed i j =
    (j.manifest ≡ i.manifest)
    × (j.limits ≡ i.limits)
    × (j.capture_filters ≡ i.capture_filters)
    × (j.host_limits ≡ i.host_limits)

pub not-over : (s : DriverState) → not (is_discovered s) ≡ false → is_over s ≡ false
not-over discovered h = refl
not-over loaded h = cc
not-over started h = cc
not-over quarantined h = cc
not-over failed h = cc

pub loaded-live :
    (s : DriverState) → not (is_loaded s) ≡ false → (is_live s ≡ true) × (is_over s ≡ false)
loaded-live discovered h = cc
loaded-live loaded h = (refl, refl)
loaded-live started h = cc
loaded-live quarantined h = cc
loaded-live failed h = cc

pub spent : (s : DriverState) → is_live (spend s) ≡ true → ⊥
spent discovered h = cc
spent loaded h = cc
spent started h = cc
spent quarantined h = cc
spent failed h = cc

pub spend-over : (s : DriverState) → is_over (spend s) ≡ false → is_over s ≡ false
spend-over discovered h = refl
spend-over loaded h = refl
spend-over started h = refl
spend-over quarantined h = h
spend-over failed h = h

module _ (m : DriverManifest) (limits : EngineLimits)
    (some_faults : 0 < limits.fault_threshold) where
  pub new_instance-IsOrderly : IsOrderly m limits (new_instance m limits)
  unfolding new_instance
  new_instance-IsOrderly = record {
    same_manifest = refl;
    same_limits = refl;
    sandboxed = λ h. ground arith;
    few_faults = λ h. some_faults;
    few_filters = omega arith;
    lowered = (omega arith, omega arith);
  }

  pub changed :
      (i j : DriverInstance)
      → IsOrderly m limits i
      → Changed i j
      → (is_live j.state ≡ true → j.has_sandbox ≡ true)
      → (is_over j.state ≡ false → j.faults < limits.fault_threshold)
      → IsOrderly m limits j
  changed i j v (a, b, c, d) live few = record {
    same_manifest = a ∙ v.same_manifest;
    same_limits = b ∙ v.same_limits;
    sandboxed = live;
    few_faults = few;
    few_filters = rw (c, d) v.few_filters;
    lowered = rw d v.lowered;
  }

  record_fault-few :
      (i : DriverInstance)
      → i.limits ≡ limits
      → (is_over (record_fault i).state ≡ false → (record_fault i).faults < limits.fault_threshold)
  unfolding record_fault
  record_fault-few i e h = ground arith

  record_fault-Changed : (i : DriverInstance) → Changed i (record_fault i)
  unfolding record_fault
  record_fault-Changed i = ground arith

  record_fault-live :
      (i : DriverInstance)
      → (is_live i.state ≡ true → i.has_sandbox ≡ true)
      → (is_live (record_fault i).state ≡ true → (record_fault i).has_sandbox ≡ true)
  unfolding record_fault
  record_fault-live i v h = ground (arith, v)

  pub record_fault-IsOrderly :
      (i : DriverInstance) → IsOrderly m limits i → IsOrderly m limits (record_fault i)
  record_fault-IsOrderly i v =
      changed i (record_fault i) v (record_fault-Changed i) (record_fault-live i v.sandboxed)
        (record_fault-few i v.same_limits)

  -- What a failed load and a stop do to a driver.
  pub over-IsOrderly :
      (i : DriverInstance)
      → IsOrderly m limits i
      → IsOrderly m limits (record i { state = failed; has_sandbox = false })
  over-IsOrderly i v =
      changed i (record i { state = failed; has_sandbox = false }) v (refl, refl, refl, refl)
        (λ h. ground arith) (λ h. ground arith)

  pub cond-IsOrderly :
      (t : Bool) (x y : Bool × DriverInstance)
      → (t ≡ true → IsOrderly m limits x.1)
      → (t ≡ false → IsOrderly m limits y.1)
      → IsOrderly m limits (if t then x else y).1
  cond-IsOrderly true x y hx hy = hx refl
  cond-IsOrderly false x y hx hy = hy refl
