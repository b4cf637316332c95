-- ===== src/Tests/Pool.antt =====
-- Tests of the Pool modules, and the witnesses of their theorems.
use libschwa.Prelude.{ℕ, List, Bool, map, ◌≡◌, refl, arith, true, false, [], ◌∷◌}
use libschwa.Pool.{
  Region, create, create_block, alloc, alloc_block, alloc_from, placed, push_block, alloc_all,
  allocd, used, nblocks, sum_by, Pool,
}
use libschwa.Pool.Regions.{IsAllocated, create-IsValid, alloc-IsAllocated}
use libschwa.Pool.Runs.{IsAccounted, alloc_all-IsAccounted}

abbrev asks : List (Bool × ℕ)
asks = (true, 5) ∷ (false, 6) ∷ (true, 3) ∷ (true, 20) ∷ (true, 0) ∷ []

abbrev after : List Region × Pool
after = alloc_all asks [] (create 8)

after-blocks : map (λ r. r.block) after.0 ≡ 1 ∷ 1 ∷ 0 ∷ 0 ∷ []
unfolding alloc_all alloc alloc_block alloc_from placed push_block create create_block
after-blocks = refl

after-offsets : map (λ r. r.offset) after.0 ≡ 20 ∷ 0 ∷ 5 ∷ 0 ∷ []
unfolding alloc_all alloc alloc_block alloc_from placed push_block create create_block
after-offsets = refl

after-numbers : nblocks after.1 ∷ allocd after.1 ∷ used after.1 ∷ [] ≡ 2 ∷ 28 ∷ 28 ∷ []
unfolding alloc_all alloc alloc_block alloc_from placed push_block create create_block allocd used
    nblocks sum_by
after-numbers = refl

alloc-IsAllocated_example : IsAllocated true [] (create 8) 20 (alloc true 20 (create 8))
alloc-IsAllocated_example =
    alloc-IsAllocated true [] (create 8) 20 (create-IsValid 8 (omega arith)) (omega arith)

alloc_all-IsAccounted_example : IsAccounted after.0 after.1
alloc_all-IsAccounted_example =
    alloc_all-IsAccounted 8 asks (omega arith)
      (omega arith, (omega arith, (omega arith, (omega arith, (omega arith, tt)))))
