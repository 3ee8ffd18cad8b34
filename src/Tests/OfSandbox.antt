-- ===== src/Tests/OfSandbox.antt =====
-- A sandbox and a driver.
use ezcap.Base.{
  ◌+◌, ◌*◌, some, get_elem?, true, false, ◌&&◌, ◌||◌, [], ◌∷◌, min, length, ltb, leb, ◌≡◌, refl,
  arith, codes, if◌then◌else◌, text_eq, lower_byte,
}
use ezcap.Drivers.Sandbox.{
  default_budgets, new_state_data, create, begin_callback, run_hooks, budget_alloc, SandboxBudgets,
  AllocContext, as_context, prepared,
}
use ezcap.Drivers.Sandbox.Layout.{create-fails}
use ezcap.Drivers.Sandbox.Hook.{run_hooks-begin_callback}
use ezcap.Drivers.Sandbox.Heap.{Heap, allocate, Reach, start, next, IsAccounted, Reach-IsAccounted}
use ezcap.Drivers.Manifest.{DriverManifest, new_manifest}
use ezcap.Drivers.Instance.{
  DriverInstance, DriverState, started, quarantined, default_limits, new_instance, LoadAnswers,
  load, on_event, register_filter, passes,
}
use ezcap.Drivers.Instance.Life.{IsOrderly}
use ezcap.Drivers.Instance.Safety.{Reach-IsOrderly}
use ezcap.Drivers.Instance.Delivery.{deliver, deliver-quarantines}
use ezcap.Drivers.Instance.Filters.{filter_of, register_filter-on_event}
use ezcap.Drivers.Instance.Life as Life
use ezcap.Model.EventTypes.{EventType}
use ezcap.Model.EventTypes as EventTypes
use ezcap.Model.EventTypes.Names.{wire_names_iff}
use ezcap.Model.Event.{new_event}

create-fails_example : create default_budgets 1000 true true ≡ false
create-fails_example = create-fails default_budgets 1000 true true (omega arith) (omega arith)

abbrev small_budgets : SandboxBudgets
small_budgets = record default_budgets { max_instructions = 3 }

run_hooks-begin_callback_example :
    get_elem?
      (run_hooks (10 ∷ 20 ∷ 30 ∷ 40 ∷ []) (begin_callback small_budgets 5 new_state_data)).1
      2
    ≡ some (leb 3 (2 + 1) || ltb (5 + 200 * 1000000) 30)
run_hooks-begin_callback_example =
    run_hooks-begin_callback small_budgets 5 (10 ∷ 20 ∷ []) (40 ∷ []) 30 new_state_data

-- What `create` hands to the allocator, and the state after the library has asked for a block.
abbrev handed : AllocContext
handed = as_context (prepared default_budgets)

abbrev after_first : Heap
after_first = record {
  ctx = (budget_alloc true handed true 0 40).1;
  blocks = if (budget_alloc true handed true 0 40).0 then 40 ∷ [] else [];
}

after_first-Reach : Reach handed after_first
after_first-Reach = next start (allocate true 40 (omega arith) (λ e. omega arith) refl)

Reach-IsAccounted_example : IsAccounted handed after_first
unfolding as_context
Reach-IsAccounted_example = Reach-IsAccounted handed (omega arith) (omega arith) after_first-Reach

abbrev watching : DriverManifest
watching = record new_manifest {
  event_types = codes "dns" ∷ codes "connection" ∷ [];
  max_subscriptions = 4;
}

abbrev all_well : LoadAnswers
all_well = record {
  created = true;
  registered = true;
  compiled = true;
  chunk_ok = true;
  has_on_load = true;
  on_load_ok = true;
}

abbrev loading : DriverInstance
loading = (load all_well (new_instance watching default_limits)).1

loading-Reach : Life.Reach watching default_limits loading
loading-Reach = Life.later Life.fresh (Life.loading all_well refl)

Reach-IsOrderly_example : IsOrderly watching default_limits loading
Reach-IsOrderly_example = Reach-IsOrderly watching default_limits (omega arith) loading-Reach

abbrev running : DriverInstance
running = record (new_instance watching default_limits) { state = started; has_sandbox = true }

deliver-quarantines_example :
    ((deliver false (new_event ∷ new_event ∷ new_event ∷ new_event ∷ []) running).0
      ≡ min 3 (length (new_event ∷ new_event ∷ new_event ∷ new_event ∷ [])))
    × ((deliver false (new_event ∷ new_event ∷ new_event ∷ new_event ∷ []) running).1.state ≡ (
        if leb 3 (length (new_event ∷ new_event ∷ new_event ∷ new_event ∷ []))
        then quarantined
        else started))
unfolding ezcap.Drivers.Instance.new_instance ezcap.Drivers.Instance.is_subscribed
    ezcap.Drivers.Instance.is_listed ezcap.Drivers.Instance.passes_filters text_eq
    ezcap.Model.EventTypes.event_type_name
deliver-quarantines_example =
    deliver-quarantines 3 (new_event ∷ new_event ∷ new_event ∷ new_event ∷ []) running (refl, refl)
      (omega arith) refl (omega arith)
      ((refl, refl), ((refl, refl), ((refl, refl), ((refl, refl), tt))))

registered : (register_filter (codes "dns") [] 0 running).0 ≡ true
unfolding register_filter ezcap.Drivers.Instance.new_instance ezcap.Model.EventTypes.event_type_name
    lower_byte
registered =
    let known = ((wire_names_iff (codes "dns")).0 EventTypes.dns).1 refl in ground (arith, known)

register_filter-on_event_example :
    (on_event true true new_event (register_filter (codes "dns") [] 0 running).1).0
    ≡ (on_event true true new_event running).0 && passes new_event (filter_of (codes "dns") [] 0)
register_filter-on_event_example =
    register_filter-on_event (codes "dns") [] 0 running registered true true new_event
