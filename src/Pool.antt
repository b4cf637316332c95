-- ===== src/Pool.antt =====
-- src/lib/schwa/pool.h: an allocator that hands out memory from blocks and frees nothing before its end.
pub mod Regions
pub mod Runs
use libschwa.Prelude.{
  ℕ, zero, suc, ◌+◌, ◌^◌, ◌%◌, Bool, true, false, Option, none, some, List, [], ◌∷◌, length, ltb,
  if◌then◌else◌,
}

-- Pool::Block: `upto` is the offset of its free end.
pub record Block : Type 0 where
  pub size : ℕ
  pub upto : ℕ

-- `rest` holds the blocks of `_blocks` behind `_current`, the newest first; a block is known by its
-- index in `_blocks`, which is the number of blocks older than it.
pub record Pool : Type 0 where
  pub block_size : ℕ
  pub current : Block
  pub rest : List Block

-- What alloc returns: `size` bytes from `offset` on in a block.
pub record Region : Type 0 where
  pub block : ℕ
  pub offset : ℕ
  pub size : ℕ

unfoldable pub create_block : ℕ → Block
create_block size = record { size = size; upto = 0 }

-- The constructor.
unfoldable pub create : ℕ → Pool
unfolding create_block
create block_size = record { block_size = block_size; current = create_block block_size; rest = [] }

-- Block::alloc: `none` is the null pointer. A size_t sum wraps.
unfoldable pub alloc_block : ℕ → Block → Option (ℕ × Block)
alloc_block size b =
    let upto = (b.upto + size) % 2 ^ 64 in
    if ltb b.size upto then none else some (b.upto, record b { upto = upto })

unfoldable pub placed : Pool → ℕ → Option (ℕ × Block) → Option (Region × Pool)
placed p size none = none
placed p size (some (offset, b)) =
    some (record { block = length p.rest; offset = offset; size = size }, record p { current = b })

unfoldable pub push_block : ℕ → Pool → Pool
unfolding create_block
push_block size p = record p {
  current = create_block (if ltb p.block_size size then size else p.block_size);
  rest = p.current ∷ p.rest;
}

-- The rest of Pool::alloc, by what the newest block gave; `granted` says whether malloc has memory for
-- a new block.
unfoldable pub alloc_from : Bool → ℕ → Pool → Option (ℕ × Block) → Option (Region × Pool)
unfolding alloc_block placed push_block
alloc_from granted size p (some r) = placed p size (some r)
alloc_from granted size p none =
    if granted
    then placed (push_block size p) size (alloc_block size (push_block size p).current)
    else none

-- Pool::alloc; `none` is bad_alloc.
unfoldable pub alloc : Bool → ℕ → Pool → Option (Region × Pool)
unfolding alloc_block alloc_from
alloc granted size p = alloc_from granted size p (alloc_block size p.current)

unfoldable pub nblocks : Pool → ℕ
nblocks p = length (p.current ∷ p.rest)

unfoldable pub sum_by : (Block → ℕ) → List Block → ℕ
sum_by f [] = 0
sum_by f (b ∷ bs) = f b + sum_by f bs

unfoldable pub allocd : Pool → ℕ
unfolding sum_by
allocd p = sum_by (λ b. b.size) (p.current ∷ p.rest)

unfoldable pub used : Pool → ℕ
unfolding sum_by
used p = sum_by (λ b. b.upto) (p.current ∷ p.rest)

-- The regions handed out, the newest first, and the pool after a call; what fails hands out nothing.
abbrev pub kept : List Region → Pool → Option (Region × Pool) → List Region × Pool
kept rs p none = (rs, p)
kept rs p (some (r, q)) = (r ∷ rs, q)

-- A run of allocations.
unfoldable pub alloc_all : List (Bool × ℕ) → List Region → Pool → List Region × Pool
alloc_all [] rs p = (rs, p)
alloc_all ((granted, size) ∷ asks) rs p =
    let s = kept rs p (alloc granted size p) in alloc_all asks s.0 s.1
