-- ===== src/Drivers/Sandbox/Layout.antt =====
-- The userdata that `create` passes, read as the allocator reads it.
use ezcap.Base.{ℕ, ◌+◌, ◌^◌, ◌<◌, Bool, true, false, ◌≡◌, arith}
use ezcap.Drivers.Sandbox.{
  SandboxBudgets, add_size, new_block, budget_alloc, as_context, prepared, create,
}

-- The first block is refused whatever the budget is.
refuses_first :
    (budgets : SandboxBudgets) (first : ℕ) (system : Bool)
    → 0 < first
    → budgets.max_memory_bytes + first < 2 ^ 64
    → (budget_alloc system (as_context (prepared budgets)) true 0 first).0 ≡ false
unfolding budget_alloc new_block as_context add_size
refuses_first budgets first system some_bytes fits = ground arith

-- No sandbox can be created: with every budget, and whatever the system and the rest of the Lua
-- library do, `create` returns nullptr, if the first block that the library asks for has a size
-- that is not 0 and does not overflow with the budget. The allocator reads the null pointer
-- `sandbox` of the userdata as its ceiling.
pub create-fails :
    (budgets : SandboxBudgets) (first : ℕ) (system later : Bool)
    → 0 < first
    → budgets.max_memory_bytes + first < 2 ^ 64
    → create budgets first system later ≡ false
unfolding create
create-fails budgets first system later some_bytes fits =
    rw (refuses_first budgets first system some_bytes fits)
