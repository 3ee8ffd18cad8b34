-- ===== src/Drivers/Sandbox/Heap.antt =====
-- The allocator over the blocks of one state.
use ezcap.Base.{
  ℕ, ◌+◌, ◌-◌, ◌^◌, ◌≤◌, ◌<◌, Bool, true, false, List, [], ◌∷◌, ◌++◌, ◌≡◌, refl, ap, ◌∙◌, arith,
  ◌==◌, ltb, if◌then◌else◌,
}
use ezcap.Drivers.Sandbox.{
  AllocContext, Answer, add_size, sub_size, free_block, new_block, resize_block, budget_alloc,
}

-- A context and the sizes of the blocks that the state holds.
pub record Heap : Type 0 where
  pub ctx : AllocContext
  pub blocks : List ℕ

abbrev pub total : List ℕ → ℕ
total [] = 0
total (b ∷ bs) = b + total bs

-- The heap of a new state, whose allocator reads `from` where its userdata points.
abbrev pub empty_heap : AllocContext → Heap
empty_heap from = record { ctx = from; blocks = [] }

-- The calls that the Lua library makes: it names the size of the block that it gives back or
-- resizes, and the system has no block of 2 ^ 63 bytes or more.
pub data Step (h : Heap) (k : Heap) : Type 0 where
  allocate :
      (system : Bool) (n : ℕ)
      → 0 < n
      → (system ≡ true → n < 2 ^ 63)
      → k ≡ record {
        ctx = (budget_alloc system h.ctx true 0 n).1;
        blocks = if (budget_alloc system h.ctx true 0 n).0 then n ∷ h.blocks else h.blocks;
      }
      → Step h k
  resize :
      (system : Bool) (before after : List ℕ) (b n : ℕ)
      → 0 < n
      → (system ≡ true → n < 2 ^ 63)
      → h.blocks ≡ before ++ b ∷ after
      → k ≡ record {
        ctx = (budget_alloc system h.ctx false b n).1;
        blocks = before ++ (if (budget_alloc system h.ctx false b n).0 then n else b) ∷ after;
      }
      → Step h k
  release :
      (before after : List ℕ) (b : ℕ)
      → h.blocks ≡ before ++ b ∷ after
      → k ≡ record { ctx = (budget_alloc true h.ctx false b 0).1; blocks = before ++ after }
      → Step h k

pub data Reach (from : AllocContext) : Heap → Type 0 where
  start : Reach from (empty_heap from)
  next : {h k : Heap} → Reach from h → Step h k → Reach from k

abbrev pub larger : ℕ → ℕ → ℕ
larger a b = if ltb a b then b else a

pub record IsAccounted (from : AllocContext) (h : Heap) : Type 0 where
  pub same_ceiling : h.ctx.ceiling_bytes ≡ from.ceiling_bytes
  pub counted : h.ctx.used_bytes ≡ from.used_bytes + total h.blocks
  pub below : h.ctx.used_bytes ≤ larger from.ceiling_bytes from.used_bytes

total-append : (xs ys : List ℕ) → total (xs ++ ys) ≡ total xs + total ys
total-append [] ys = omega arith
total-append (x ∷ xs) ys = omega (arith, total-append xs ys)

new_block-used :
    (system : Bool) (ctx : AllocContext) (n bound : ℕ)
    → bound < 2 ^ 63
    → ctx.ceiling_bytes ≤ bound
    → ctx.used_bytes ≤ bound
    → (system ≡ true → n < 2 ^ 63)
    → ((new_block system ctx n).1.ceiling_bytes ≡ ctx.ceiling_bytes)
      × ((new_block system ctx n).1.used_bytes
          ≡ (if (new_block system ctx n).0 then ctx.used_bytes + n else ctx.used_bytes))
      × ((new_block system ctx n).1.used_bytes ≤ bound)
unfolding new_block add_size
new_block-used true ctx n bound small low below fits = let short = fits refl in ground arith
new_block-used false ctx n bound small low below fits = ground arith

resize_block-used :
    (system : Bool) (ctx : AllocContext) (b n bound : ℕ)
    → bound < 2 ^ 63
    → ctx.ceiling_bytes ≤ bound
    → ctx.used_bytes ≤ bound
    → b ≤ ctx.used_bytes
    → (system ≡ true → n < 2 ^ 63)
    → ((resize_block system ctx b n).1.ceiling_bytes ≡ ctx.ceiling_bytes)
      × ((resize_block system ctx b n).1.used_bytes
          ≡ (if (resize_block system ctx b n).0 then ctx.used_bytes - b + n else ctx.used_bytes))
      × ((resize_block system ctx b n).1.used_bytes ≤ bound)
unfolding resize_block add_size sub_size
resize_block-used true ctx b n bound small low below held fits =
    let short = fits refl in ground arith
resize_block-used false ctx b n bound small low below held fits = ground arith

free_block-used :
    (ctx : AllocContext) (b : ℕ)
    → ctx.used_bytes < 2 ^ 63
    → b ≤ ctx.used_bytes
    → ((free_block ctx false b).1.ceiling_bytes ≡ ctx.ceiling_bytes)
      × ((free_block ctx false b).1.used_bytes ≡ ctx.used_bytes - b)
unfolding free_block sub_size
free_block-used ctx b small held = ground arith

budget_alloc-new :
    (system : Bool) (ctx : AllocContext) (n : ℕ)
    → 0 < n
    → budget_alloc system ctx true 0 n ≡ new_block system ctx n
unfolding budget_alloc
budget_alloc-new system ctx n some_bytes = let test : (n == 0) ≡ false = ground arith in rw test

budget_alloc-resize :
    (system : Bool) (ctx : AllocContext) (b n : ℕ)
    → 0 < n
    → budget_alloc system ctx false b n ≡ resize_block system ctx b n
unfolding budget_alloc
budget_alloc-resize system ctx b n some_bytes =
    let test : (n == 0) ≡ false = ground arith in rw test

budget_alloc-free :
    (ctx : AllocContext) (b : ℕ) → budget_alloc true ctx false b 0 ≡ free_block ctx false b
unfolding budget_alloc
budget_alloc-free ctx b = refl

module _ (from : AllocContext) (small : from.ceiling_bytes < 2 ^ 63)
    (some_used : from.used_bytes < 2 ^ 63) where
  abbrev bound : ℕ
  bound = larger from.ceiling_bytes from.used_bytes

  bound_small : bound < 2 ^ 63
  bound_small = ground arith

  low_ceiling : from.ceiling_bytes ≤ bound
  low_ceiling = ground arith

  low_used : from.used_bytes ≤ bound
  low_used = ground arith

  allocate-IsAccounted :
      (h : Heap) (a : Answer) (n : ℕ)
      → IsAccounted from h
      → a.1.ceiling_bytes ≡ h.ctx.ceiling_bytes
      → a.1.used_bytes ≡ (if a.0 then h.ctx.used_bytes + n else h.ctx.used_bytes)
      → a.1.used_bytes ≤ bound
      → IsAccounted from (record { ctx = a.1; blocks = if a.0 then n ∷ h.blocks else h.blocks })
  allocate-IsAccounted h (true, ctx) n v same used below = record {
    same_ceiling = ground arith;
    counted = ground arith;
    below = ground arith;
  }
  allocate-IsAccounted h (false, ctx) n v same used below = record {
    same_ceiling = ground arith;
    counted = ground arith;
    below = ground arith;
  }

  resize-IsAccounted :
      (h : Heap) (a : Answer) (before after : List ℕ) (b n : ℕ)
      → IsAccounted from h
      → h.blocks ≡ before ++ b ∷ after
      → a.1.ceiling_bytes ≡ h.ctx.ceiling_bytes
      → a.1.used_bytes ≡ (if a.0 then h.ctx.used_bytes - b + n else h.ctx.used_bytes)
      → a.1.used_bytes ≤ bound
      → IsAccounted from (record { ctx = a.1; blocks = before ++ (if a.0 then n else b) ∷ after })
  resize-IsAccounted h (true, ctx) before after b n v split same used below =
      let size : total h.blocks ≡ total before + (b + total after) =
        ap total split ∙ total-append before (b ∷ after) in
      let size' = total-append before (n ∷ after) in
      record {
        same_ceiling = ground arith;
        counted = ground (arith, v.counted, size, size');
        below = ground arith;
      }
  resize-IsAccounted h (false, ctx) before after b n v split same used below = record {
    same_ceiling = ground arith;
    counted = used ∙ v.counted ∙ ap (λ t. from.used_bytes + total t) split;
    below = ground arith;
  }

  held :
      (h : Heap) (before after : List ℕ) (b : ℕ)
      → IsAccounted from h
      → h.blocks ≡ before ++ b ∷ after
      → (b ≤ h.ctx.used_bytes)
        × (h.ctx.used_bytes ≡ from.used_bytes + (total before + (b + total after)))
  held h before after b v split =
      let size : h.ctx.used_bytes ≡ from.used_bytes + (total before + (b + total after)) =
        v.counted
        ∙ ap (λ t. from.used_bytes + t) (ap total split ∙ total-append before (b ∷ after)) in
      (omega arith, size)

  Step-IsAccounted : {h k : Heap} → Step h k → IsAccounted from h → IsAccounted from k
  Step-IsAccounted {h} (allocate system n some_bytes fits e) v =
      let (same, used, below) =
        new_block-used system h.ctx n bound bound_small (rw v.same_ceiling low_ceiling) v.below
          fits in
      rw (e, budget_alloc-new system h.ctx n some_bytes)
        (allocate-IsAccounted h (new_block system h.ctx n) n v same used below)
  Step-IsAccounted {h} (resize system before after b n some_bytes fits split e) v =
      let (inside, size) = held h before after b v split in
      let (same, used, below) =
        resize_block-used system h.ctx b n bound bound_small (rw v.same_ceiling low_ceiling) v.below
          inside fits in
      rw (e, budget_alloc-resize system h.ctx b n some_bytes)
        (resize-IsAccounted h (resize_block system h.ctx b n) before after b n v split same used
          below)
  Step-IsAccounted {h} (release before after b split e) v =
      let (inside, size) = held h before after b v split in
      let (same, used) = free_block-used h.ctx b (omega (arith, v.below, bound_small)) inside in
      let left = total-append before after in
      rw (e, budget_alloc-free h.ctx b)
        (record {
          same_ceiling = ground (arith, same, v.same_ceiling);
          counted = ground (arith, used, size, left);
          below = ground (arith, used, v.below);
        })

  -- From any context that the allocator starts with, whose ceiling and count are below 2 ^ 63, and
  -- whatever blocks the state asks for, gives back or resizes in any order: the ceiling stays as it
  -- is, the count is what it was at the start and the sizes of the blocks that the state holds, and
  -- it never passes the ceiling, or what it was at the start if that was above the ceiling. No block
  -- of the system has 2 ^ 63 bytes or more.
  pub Reach-IsAccounted : {h : Heap} → Reach from h → IsAccounted from h
  Reach-IsAccounted start = record { same_ceiling = refl; counted = omega arith; below = low_used }
  Reach-IsAccounted (next r st) = Step-IsAccounted st (Reach-IsAccounted r)
