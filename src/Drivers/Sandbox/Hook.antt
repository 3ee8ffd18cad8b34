-- ===== src/Drivers/Sandbox/Hook.antt =====
-- The instruction hook over a callback.
use ezcap.Base.{
  ℕ, ◌+◌, ◌*◌, ◌-◌, true, ◌||◌, List, [], ◌∷◌, ◌++◌, some, length, get_elem?, ◌≡◌, refl, arith, ltb,
  leb,
}
use ezcap.Drivers.Sandbox.{SandboxBudgets, StateData, begin_callback, instruction_hook, run_hooks}

-- One call: it raises if it is the last, or late.
hook-raises :
    (now : ℕ) (d : StateData)
    → d.in_callback ≡ true
    → (instruction_hook now d).1 ≡ (leb d.instructions_remaining 1 || ltb d.deadline now)
unfolding instruction_hook
hook-raises now d inside = ground arith

hook-counts :
    (now : ℕ) (d : StateData)
    → d.in_callback ≡ true
    → ((instruction_hook now d).0.in_callback ≡ true)
      × ((instruction_hook now d).0.instructions_remaining ≡ d.instructions_remaining - 1)
      × ((instruction_hook now d).0.deadline ≡ d.deadline)
unfolding instruction_hook
hook-counts now d inside = ground arith

run_hooks-raises :
    (before after : List ℕ) (now : ℕ) (d : StateData)
    → d.in_callback ≡ true
    → get_elem? (run_hooks (before ++ now ∷ after) d).1 (length before)
      ≡ some (leb d.instructions_remaining (length before + 1) || ltb d.deadline now)
unfolding run_hooks
run_hooks-raises [] after now d inside = rw (hook-raises now d inside) refl
run_hooks-raises (first ∷ before) after now d inside =
    let (still, count, same) = hook-counts first d inside in
    let rest = run_hooks-raises before after now (instruction_hook first d).0 still in
    ground (arith, rest, count, same)

-- In a callback, a call of the hook raises an error exactly if, with the calls before it in the
-- callback, the hook has been called as often as the budget of instructions says, or if it is called
-- later than the deadline, which is the time limit after the start. This is so at every call of
-- every sequence of calls, also after an error that the script has caught.
pub run_hooks-begin_callback :
    (budgets : SandboxBudgets) (start : ℕ) (before after : List ℕ) (now : ℕ) (d : StateData)
    → get_elem?
        (run_hooks (before ++ now ∷ after) (begin_callback budgets start d)).1
        (length before)
      ≡ some (
          leb budgets.max_instructions (length before + 1)
          || ltb (start + budgets.wall_clock_ms * 1000000) now)
unfolding begin_callback
run_hooks-begin_callback budgets start before after now d =
    run_hooks-raises before after now (begin_callback budgets start d) refl
