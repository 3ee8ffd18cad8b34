-- ===== src/Drivers/Instance/Filters.antt =====
-- What a filter that a script registers does to the events that the driver gets.
use ezcap.Base.{ℕ, Bool, true, false, ◌&&◌, List, [], ◌∷◌, ◌++◌, ◌≡◌, refl, arith, Text, text_eq}
use ezcap.Drivers.Instance.{
  DriverInstance, is_started, on_event, is_subscribed, passes_filters, CaptureFilter, passes,
  register_filter,
}
use ezcap.Model.Event.{Event}
use ezcap.Model.EventTypes.{EventType, event_type_name}
use ezcap.Policy.Redactor.{is_empty}

abbrev pub filter_of : Text → Text → ℕ → CaptureFilter
filter_of event_type transport permille = record {
  event_type = event_type;
  transport = transport;
  min_confidence_permille = permille;
}

passes_filters-append :
    (e : Event) (fs : List CaptureFilter) (f : CaptureFilter)
    → passes_filters e (fs ++ f ∷ []) ≡ passes_filters e fs && passes e f
unfolding passes_filters
passes_filters-append e [] f = ground arith
passes_filters-append e (g ∷ fs) f = ground (arith, passes_filters-append e fs f)

register_filter-true :
    (event_type transport : Text) (permille : ℕ) (i : DriverInstance)
    → (register_filter event_type transport permille i).0 ≡ true
    → (register_filter event_type transport permille i).1 ≡ record i {
      capture_filters = i.capture_filters ++ filter_of event_type transport permille ∷ [];
    }
unfolding register_filter
register_filter-true event_type transport permille i h = ground arith

on_event-called :
    (has_on_event ok : Bool) (e : Event) (i : DriverInstance)
    → (on_event has_on_event ok e i).0
      ≡ is_started i.state
        && i.has_sandbox
        && is_subscribed i.manifest e
        && passes_filters e i.capture_filters
        && has_on_event
unfolding on_event
on_event-called has_on_event ok e i = ground arith

-- A driver that has registered a filter gets exactly the events that it would get without it and
-- that the filter lets through.
pub register_filter-on_event :
    (event_type transport : Text) (permille : ℕ) (i : DriverInstance)
    → (register_filter event_type transport permille i).0 ≡ true
    → (has_on_event ok : Bool) (e : Event)
    → (on_event has_on_event ok e (register_filter event_type transport permille i).1).0
      ≡ (on_event has_on_event ok e i).0 && passes e (filter_of event_type transport permille)
register_filter-on_event event_type transport permille i h has_on_event ok e =
    let f = filter_of event_type transport permille in
    let longer = passes_filters-append e i.capture_filters f in
    rw
      (
        register_filter-true event_type transport permille i h,
        on_event-called has_on_event ok e
            (record i { capture_filters = i.capture_filters ++ f ∷ [] }),
        on_event-called has_on_event ok e i,
        longer,
      )
      (ground arith)

passes_other :
    (event_type transport : Text) (permille : ℕ) (e : Event)
    → is_empty event_type ≡ false
    → ((k : EventType) → text_eq event_type (event_type_name k) ≡ false)
    → passes e (filter_of event_type transport permille) ≡ false
unfolding passes
passes_other event_type transport permille e some_name other = rw (some_name, other e.type) refl

-- A filter whose event type is not written as `event_type_name` writes it, which
-- `register_filter` takes in any letter case, keeps every event from the driver.
pub register_filter-mutes :
    (event_type transport : Text) (permille : ℕ) (i : DriverInstance)
    → (register_filter event_type transport permille i).0 ≡ true
    → is_empty event_type ≡ false
    → ((k : EventType) → text_eq event_type (event_type_name k) ≡ false)
    → (has_on_event ok : Bool) (e : Event)
    → (on_event has_on_event ok e (register_filter event_type transport permille i).1).0 ≡ false
register_filter-mutes event_type transport permille i h some_name other has_on_event ok e =
    rw
      (
        register_filter-on_event event_type transport permille i h has_on_event ok e,
        passes_other event_type transport permille e some_name other,
      )
      (ground arith)
