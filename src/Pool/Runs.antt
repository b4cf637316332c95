-- ===== src/Pool/Runs.antt =====
-- Runs of Pool::alloc (src/lib/schwa/pool.h) from a new pool.
use libschwa.Prelude.{
  ℕ, ◌+◌, ◌^◌, ◌≤◌, ◌<◌, ◌≡◌, refl, sym, ap₂, ◌∙◌, Bool, Option, none, some, List, [], ◌∷◌, All,
}
use libschwa.Pool.{Pool, Region, create, create_block, kept, alloc, alloc_all, used, sum_by}
use libschwa.Pool.Regions.{IsValid, IsAllocated, create-IsValid, alloc-IsAllocated}

abbrev pub total_size : List Region → ℕ
total_size [] = 0
total_size (r ∷ rs) = total_size rs + r.size

-- A pool, the regions it handed out, and its bytes in use.
abbrev pub IsAccounted : List Region → Pool → Type 0
IsAccounted rs p = IsValid rs p × (used p ≡ total_size rs)

abbrev pub AreSmall : List (Bool × ℕ) → Type 0
AreSmall = All (λ ask. ask.1 < 2 ^ 63)

-- A step of a run, by what alloc gave.
kept-IsAccounted :
    (granted : Bool) (n : ℕ) (rs : List Region) (p : Pool) (o : Option (Region × Pool))
    → IsAllocated granted rs p n o
    → IsAccounted rs p
    → (let s = kept rs p o in IsAccounted s.0 s.1)
kept-IsAccounted granted n rs p none h a = a
kept-IsAccounted granted n rs p (some (r, q)) h a =
    (h.0.0, h.1 ∙ ap₂ (λ s t. s + t) a.1 (sym h.0.1))

run-IsAccounted :
    (asks : List (Bool × ℕ)) (rs : List Region) (p : Pool)
    → AreSmall asks
    → IsAccounted rs p
    → (let s = alloc_all asks rs p in IsAccounted s.0 s.1)
unfolding alloc_all
run-IsAccounted [] rs p small a = a
run-IsAccounted ((granted, n) ∷ asks) rs p small a =
    let s = kept rs p (alloc granted n p) in
    run-IsAccounted asks s.0 s.1 small.1 (
      kept-IsAccounted granted n rs p (alloc granted n p)
        (alloc-IsAllocated granted rs p n a.0 small.0) a)

create-IsAccounted : (n : ℕ) → n ≤ 2 ^ 63 → IsAccounted [] (create n)
unfolding create create_block used sum_by
create-IsAccounted n h = (create-IsValid n h, refl)

-- After any run of requests of less than 2^63 bytes each in a new pool with a block size of at most
-- 2^63, whichever of them malloc fails, the regions handed out lie below the free ends of their blocks,
-- share no byte pairwise, and are as long together as the pool's `used`; no free end is past the size
-- of its block.
pub alloc_all-IsAccounted :
    (block_size : ℕ) (asks : List (Bool × ℕ))
    → block_size ≤ 2 ^ 63
    → AreSmall asks
    → (let s = alloc_all asks [] (create block_size) in IsAccounted s.0 s.1)
alloc_all-IsAccounted block_size asks h small =
    run-IsAccounted asks [] (create block_size) small (create-IsAccounted block_size h)
