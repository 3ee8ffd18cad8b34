-- ===== src/Drivers/Instance.antt =====
-- src/drivers/driver_engine.cpp and .hpp, and the filters of src/drivers/lua/bindings: one driver
-- from its manifest to its end. What the Lua script and the Lua library answer is given with each
-- call. A confidence is counted in hundredths, as in the events.
pub mod Life
pub mod Safety
pub mod Delivery
pub mod Filters
use ezcap.Base.{
  ℕ, ◌+◌, ◌-◌, ◌*◌, ◌%◌, ◌^◌, min, Bool, true, false, not, ◌&&◌, ◌||◌, ◌==◌, List, [], ◌∷◌, ◌++◌,
  Option, none, some, ltb, leb, if◌then◌else◌, is_some, length, Text, text_eq,
}
use ezcap.Drivers.Manifest.{DriverManifest}
use ezcap.Drivers.Sandbox.{SandboxBudgets, default_budgets}
use ezcap.Model.Event.{Event}
use ezcap.Model.EventTypes.{
  event_type_name, event_type_from_name, transport_name, transport_from_name,
}
use ezcap.Policy.Redactor.{is_empty}

pub data DriverState : Type 0 where
  discovered loaded started quarantined failed : DriverState

pub record EngineLimits : Type 0 where
  pub max_concurrent_scripts : ℕ
  pub max_endpoints_per_driver : ℕ
  pub max_subscriptions_per_driver : ℕ
  pub max_events_per_second_per_driver : ℕ
  pub fault_threshold : ℕ
  pub sandbox_budgets : SandboxBudgets

-- The members' initialisers.
abbrev pub default_limits : EngineLimits
default_limits = record {
  max_concurrent_scripts = 16;
  max_endpoints_per_driver = 8;
  max_subscriptions_per_driver = 16;
  max_events_per_second_per_driver = 64;
  fault_threshold = 3;
  sandbox_budgets = default_budgets;
}

pub record DriverResourceLimits : Type 0 where
  pub max_endpoints : ℕ
  pub max_subscriptions : ℕ
  pub max_events_per_second : ℕ
  pub max_string_bytes : ℕ

pub record CaptureFilter : Type 0 where
  pub event_type : Text
  pub transport : Text
  pub min_confidence_permille : ℕ

-- A `DriverInstance` with its host state; `has_sandbox` is `sandbox_ != nullptr`, and `backoffs` are
-- the milliseconds that `record_fault` slept, the last one first, `none` for a count that C++ leaves
-- undefined.
pub record DriverInstance : Type 0 where
  pub state : DriverState
  pub faults : ℕ
  pub has_sandbox : Bool
  pub manifest : DriverManifest
  pub host_limits : DriverResourceLimits
  pub capture_filters : List CaptureFilter
  pub limits : EngineLimits
  pub backoffs : List (Option ℕ)

-- DriverInstance::DriverInstance.
unfoldable pub new_instance : DriverManifest → EngineLimits → DriverInstance
new_instance manifest limits = record {
  state = discovered;
  faults = 0;
  has_sandbox = false;
  manifest = manifest;
  host_limits = record {
    max_endpoints = min limits.max_endpoints_per_driver manifest.max_endpoints;
    max_subscriptions = min limits.max_subscriptions_per_driver manifest.max_subscriptions;
    max_events_per_second = limits.max_events_per_second_per_driver;
    max_string_bytes = limits.sandbox_budgets.max_string_bytes;
  };
  capture_filters = [];
  limits = limits;
  backoffs = [];
}

abbrev pub is_discovered : DriverState → Bool
is_discovered discovered = true
is_discovered _ = false

abbrev pub is_loaded : DriverState → Bool
is_loaded loaded = true
is_loaded _ = false

abbrev pub is_started : DriverState → Bool
is_started started = true
is_started _ = false

-- `min(25u << (faults - 1), 8000u)`, on 32-bit words; a shift by 32 or more is undefined.
unfoldable pub backoff_ms : ℕ → Option ℕ
backoff_ms faults =
    if (faults == 0) || ltb 32 faults
    then none
    else some (min (25 * 2 ^ (faults - 1) % 2 ^ 32) 8000)

unfoldable pub record_fault : DriverInstance → DriverInstance
unfolding backoff_ms
record_fault i =
    let faults = (i.faults + 1) % 2 ^ 32 in
    if leb i.limits.fault_threshold faults
    then record i { faults = faults; state = quarantined }
    else record i { faults = faults; backoffs = backoff_ms faults ∷ i.backoffs }

-- What the parts that `load` calls answer: `Sandbox::create`, `register_lezcap`, `load_source`, the
-- run of the chunk, whether `on_load` is a function, and its run.
pub record LoadAnswers : Type 0 where
  pub created : Bool
  pub registered : Bool
  pub compiled : Bool
  pub chunk_ok : Bool
  pub has_on_load : Bool
  pub on_load_ok : Bool

-- `state_ = Failed` and `sandbox_.reset()`.
abbrev pub fail_load : DriverInstance → Bool × DriverInstance
fail_load i = (false, record i { state = failed; has_sandbox = false })

unfoldable pub load : LoadAnswers → DriverInstance → Bool × DriverInstance
unfolding record_fault
load a i =
    if not (is_discovered i.state)
    then (false, i)
    else if not a.created
    then fail_load i
    else if not a.registered
    then fail_load i
    else if not a.compiled
    then fail_load i
    else if not a.chunk_ok
    then fail_load i
    else if not a.has_on_load
    then fail_load i
    else if not a.on_load_ok
    then fail_load (record_fault i)
    else (true, record i { state = loaded; has_sandbox = true })

-- `ok` is what `call_global` returns.
unfoldable pub start : Bool → DriverInstance → Bool × DriverInstance
unfolding record_fault
start ok i =
    if not (is_loaded i.state)
    then (false, i)
    else if not ok
    then (false, record_fault i)
    else (true, record i { state = started })

-- The loop over the manifest's types.
unfoldable pub is_listed : List Text → Text → Bool
is_listed [] name = false
is_listed (t ∷ types) name = if text_eq t name then true else is_listed types name

abbrev pub no_types : List Text → Bool
no_types [] = true
no_types (_ ∷ _) = false

unfoldable pub is_subscribed : DriverManifest → Event → Bool
unfolding is_listed
is_subscribed m e =
    if not (no_types m.event_types) then is_listed m.event_types (event_type_name e.type) else true

abbrev pub has_other_transport : Text → Event → Bool
has_other_transport transport e = elim e.network [
  | none ↦ false
  | some n ↦ not (text_eq transport (transport_name n.transport))
]

-- One filter lets the event through. A confidence of `c` hundredths is `c * 10` permille.
unfoldable pub passes : Event → CaptureFilter → Bool
passes e f =
    if not (is_empty f.event_type) && not (text_eq f.event_type (event_type_name e.type))
    then false
    else if not (is_empty f.transport) && has_other_transport f.transport e
    then false
    else if ltb 0 f.min_confidence_permille && ltb (e.confidence * 10) f.min_confidence_permille
    then false
    else true

unfoldable pub passes_filters : Event → List CaptureFilter → Bool
unfolding passes
passes_filters e [] = true
passes_filters e (f ∷ filters) = if passes e f then passes_filters e filters else false

-- With whether the script was called. `has_on_event` says whether it has the callback, `ok` whether
-- the callback ran without an error.
unfoldable pub on_event : Bool → Bool → Event → DriverInstance → Bool × DriverInstance
unfolding is_subscribed passes_filters record_fault
on_event has_on_event ok e i =
    if not (is_started i.state) || not i.has_sandbox
    then (false, i)
    else if not (is_subscribed i.manifest e)
    then (false, i)
    else if not (passes_filters e i.capture_filters)
    then (false, i)
    else if not has_on_event
    then (false, i)
    else if not ok
    then (true, record_fault i)
    else (true, i)

abbrev pub spend : DriverState → DriverState
spend started = discovered
spend loaded = discovered
spend s = s

-- The fault of `on_stop`, and then the teardown.
abbrev pub tear_down : DriverInstance → DriverInstance
tear_down i = record i { has_sandbox = false; state = spend i.state }

unfoldable pub stop : Bool → DriverInstance → DriverInstance
unfolding record_fault
stop ok i =
    if is_started i.state && i.has_sandbox && not ok
    then tear_down (record_fault i)
    else tear_down i

abbrev pub is_known_type : Text → Bool
is_known_type name = is_some (event_type_from_name name)

abbrev pub is_known_transport : Text → Bool
is_known_transport name = is_some (transport_from_name name)

-- The fields of the table that a script gives to `capture.register_filter`: an absent one is empty.
-- What Lua checks of their types is left out.
unfoldable pub register_filter : Text → Text → ℕ → DriverInstance → Bool × DriverInstance
register_filter event_type transport permille i =
    if leb i.host_limits.max_subscriptions (length i.capture_filters)
    then (false, i)
    else if ltb 32 (length event_type)
    then (false, i)
    else if not (is_empty event_type) && not (is_known_type event_type)
    then (false, i)
    else if ltb 8 (length transport)
    then (false, i)
    else if not (is_empty transport) && not (is_known_transport transport)
    then (false, i)
    else if ltb 1000 permille
    then (false, i)
    else (
      true,
      record i {
        capture_filters =
            i.capture_filters
            ++ record {
              event_type = event_type;
              transport = transport;
              min_confidence_permille = permille;
            }
              ∷ [];
      },
    )
