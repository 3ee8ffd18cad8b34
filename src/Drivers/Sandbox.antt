-- ===== src/Drivers/Sandbox.antt =====
-- src/drivers/lua/sandbox.cpp and sandbox.hpp: the allocator of a Lua state with its ceiling, the
-- instruction hook, and `create`. Sizes and addresses are 64-bit words. `malloc` and `realloc` are
-- the system's: whether they return a block is a parameter. A time is a count of nanoseconds. The
-- `int64_t` counter of instructions stops at 0 here; the source, which only asks whether it is at
-- most 0 after it has counted down, counts on below 0.
pub mod Heap
pub mod Layout
pub mod Hook
use ezcap.Base.{
  ℕ, suc, ◌+◌, ◌-◌, ◌*◌, ◌%◌, ◌^◌, Bool, true, false, not, ◌&&◌, List, [], ◌∷◌, ltb, leb, ◌==◌,
  if◌then◌else◌,
}

pub record SandboxBudgets : Type 0 where
  pub max_memory_bytes : ℕ
  pub max_string_bytes : ℕ
  pub max_instructions : ℕ
  pub wall_clock_ms : ℕ

-- The members' initialisers.
abbrev pub default_budgets : SandboxBudgets
default_budgets = record {
  max_memory_bytes = 1024 * 1024;
  max_string_bytes = 8 * 1024;
  max_instructions = 2000000;
  wall_clock_ms = 200;
}

pub record AllocContext : Type 0 where
  pub ceiling_bytes : ℕ
  pub used_bytes : ℕ
  pub exhausted : Bool

-- `a + b` and `a - b` on `std::size_t`.
unfoldable pub add_size : ℕ → ℕ → ℕ
add_size a b = (a + b) % 2 ^ 64

unfoldable pub sub_size : ℕ → ℕ → ℕ
sub_size a b = (a + 2 ^ 64 - b) % 2 ^ 64

-- What an allocator call returns (a block or nullptr), with the context after it.
abbrev pub Answer : Type 0
Answer = Bool × AllocContext

abbrev refuse : AllocContext → Answer
refuse ctx = (false, record ctx { exhausted = true })

unfoldable pub free_block : AllocContext → Bool → ℕ → Answer
unfolding sub_size
free_block ctx is_null osize =
    (false, if is_null then ctx else record ctx { used_bytes = sub_size ctx.used_bytes osize })

unfoldable pub new_block : Bool → AllocContext → ℕ → Answer
unfolding add_size
new_block system ctx nsize =
    if ltb ctx.ceiling_bytes (add_size ctx.used_bytes nsize)
    then refuse ctx
    else if system
    then (true, record ctx { used_bytes = add_size ctx.used_bytes nsize })
    else (false, ctx)

abbrev resized_bytes : ℕ → ℕ → ℕ → ℕ
resized_bytes used osize nsize =
    if ltb osize nsize then add_size used (nsize - osize) else sub_size used (osize - nsize)

unfoldable pub resize_block : Bool → AllocContext → ℕ → ℕ → Answer
unfolding add_size sub_size
resize_block system ctx osize nsize =
    if ltb osize nsize && ltb ctx.ceiling_bytes (add_size ctx.used_bytes (nsize - osize))
    then refuse ctx
    else if system
    then (true, record ctx { used_bytes = resized_bytes ctx.used_bytes osize nsize })
    else (false, ctx)

-- `system` says whether the system has the block; `is_null` is `ptr == nullptr`.
unfoldable pub budget_alloc : Bool → AllocContext → Bool → ℕ → ℕ → Answer
unfolding free_block new_block resize_block
budget_alloc system ctx is_null osize nsize =
    if nsize == 0
    then free_block ctx is_null osize
    else if is_null
    then new_block system ctx nsize
    else resize_block system ctx osize nsize

-- The userdata of a state; `sandbox` is an address, `deadline` and the clock are times.
pub record StateData : Type 0 where
  pub sandbox : ℕ
  pub alloc : AllocContext
  pub instructions_remaining : ℕ
  pub deadline : ℕ
  pub in_callback : Bool

abbrev pub new_state_data : StateData
new_state_data = record {
  sandbox = 0;
  alloc = record { ceiling_bytes = 0; used_bytes = 0; exhausted = false };
  instructions_remaining = 0;
  deadline = 0;
  in_callback = false;
}

-- What `static_cast<AllocContext*>(ud)` reads where `ud` points to a `StateData`: its first three
-- words, `sandbox` and the first two of `alloc`; the Boolean is one byte, the lowest.
unfoldable pub as_context : StateData → AllocContext
as_context d = record {
  ceiling_bytes = d.sandbox;
  used_bytes = d.alloc.ceiling_bytes;
  exhausted = not (d.alloc.used_bytes % 256 == 0);
}

-- What `create` has set when it calls `lua_newstate`.
abbrev pub prepared : SandboxBudgets → StateData
prepared budgets = record new_state_data {
  alloc = record new_state_data.alloc { ceiling_bytes = budgets.max_memory_bytes };
}

-- `create`, up to the null test of `lua_newstate`: the library asks the allocator, with the userdata
-- that it was given, for a block of `first` bytes, and returns nullptr if it has none. `later` says
-- whether the rest of the library's work, and of `create`, succeeds.
unfoldable pub create : SandboxBudgets → ℕ → Bool → Bool → Bool
unfolding budget_alloc as_context
create budgets first system later =
    if (budget_alloc system (as_context (prepared budgets)) true 0 first).0 then later else false

unfoldable pub begin_callback : SandboxBudgets → ℕ → StateData → StateData
begin_callback budgets now d = record d {
  instructions_remaining = budgets.max_instructions;
  deadline = now + budgets.wall_clock_ms * 1000000;
  in_callback = true;
}

unfoldable pub end_callback : StateData → StateData
end_callback d = record d { in_callback = false }

-- One call of the hook at time `now`, with whether it marks the sandbox as aborted and raises.
unfoldable pub instruction_hook : ℕ → StateData → StateData × Bool
instruction_hook now d =
    let counted = record d { instructions_remaining = d.instructions_remaining - 1 } in
    if not d.in_callback
    then (d, false)
    else if leb d.instructions_remaining 1
    then (counted, true)
    else if ltb d.deadline now
    then (counted, true)
    else (counted, false)

-- The hook's calls at the times of `clock`, with whether each raised. An error that is raised ends
-- the callback only if nothing catches it: a script that called through `pcall` runs on, and the
-- hook is called again.
unfoldable pub run_hooks : List ℕ → StateData → StateData × List Bool
unfolding instruction_hook
run_hooks [] d = (d, [])
run_hooks (now ∷ clock) d =
    let (after, raised) = instruction_hook now d in
    let (last, all_raised) = run_hooks clock after in (last, raised ∷ all_raised)
