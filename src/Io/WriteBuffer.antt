-- ===== src/Io/WriteBuffer.antt =====
-- src/lib/schwa/io/write_buffer.h and write_buffer.cc: a byte sink that keeps its bytes in blocks, which
-- lie in malloc'ed pools or, for write_zerocopy, in memory of the caller's.
pub mod Places
pub mod Contents
pub mod Copy
use libschwa.Prelude.{ℕ, ◌+◌, ◌*◌, List, [], ◌∷◌, ◌++◌, length, take, ltb, ◌==◌, if◌then◌else◌, max}

-- Where a block's `data` points: an offset in a pool, or memory that the caller owns.
pub data Place : Type 0 where
  in_pool : ℕ → ℕ → Place
  external : Place

-- `content` is what was stored from `data` on. The caller of write_zerocopy leaves its memory as it
-- is for as long as the buffer lives, so the content of such a block is what it was then.
pub record Block : Type 0 where
  pub capacity : ℕ
  pub place : Place
  pub content : List ℕ
  pub size : ℕ

-- `pools` has the sizes of the pools `_pools[0 .. _current_pool]`. `blocks` is
-- `_blocks[0 .. _current_block - 1]` and `last` is `_blocks[_current_block]`. `lb_upto` is the
-- offset of `_lb_upto` from the data of the last block.
pub record WriteBuffer : Type 0 where
  pub pool_size : ℕ
  pub pools : List ℕ
  pub npools : ℕ
  pub current_pool : ℕ
  pub pool_used : ℕ
  pub block_size : ℕ
  pub blocks : List Block
  pub last : Block
  pub current_block : ℕ
  pub nblocks : ℕ
  pub size : ℕ
  pub lb_capacity : ℕ
  pub lb_size : ℕ
  pub lb_upto : ℕ

abbrev new_block : ℕ → Place → List ℕ → ℕ → Block
new_block capacity place content size = record {
  capacity = capacity;
  place = place;
  content = content;
  size = size;
}

-- The constructor.
unfoldable pub create : ℕ → ℕ → ℕ → ℕ → WriteBuffer
create block_size nblocks pool_size npools = record {
  pool_size = pool_size;
  pools = pool_size ∷ [];
  npools = npools;
  current_pool = 0;
  pool_used = 0 + block_size;
  block_size = block_size;
  blocks = [];
  last = new_block block_size (in_pool 0 0) [] 0;
  current_block = 0;
  nblocks = nblocks;
  size = 0;
  lb_capacity = block_size;
  lb_size = 0;
  lb_upto = 0;
}

-- `_blocks[_current_block].size = _lb_size`
unfoldable pub flush : WriteBuffer → WriteBuffer
flush w = record w { last = record w.last { size = w.lb_size } }

-- The block that was the last one is behind `_current_block` now, and the slot of the next one is
-- not constructed yet: `last` is given by the caller right after.
unfoldable pub next_block : WriteBuffer → WriteBuffer
next_block w = record w {
  blocks = w.blocks ++ w.last ∷ [];
  current_block = w.current_block + 1;
  nblocks = if w.current_block + 1 == w.nblocks then w.nblocks * 2 else w.nblocks;
}

-- next_pool with the malloc behind it.
unfoldable pub next_pool : ℕ → WriteBuffer → WriteBuffer
next_pool nbytes w = record w {
  pools = w.pools ++ max w.pool_size nbytes ∷ [];
  current_pool = w.current_pool + 1;
  npools = if w.current_pool + 1 == w.npools then w.npools * 2 else w.npools;
  pool_used = 0;
}

unfoldable pub require_pool : ℕ → WriteBuffer → WriteBuffer
require_pool nbytes w = if ltb w.pool_size (w.pool_used + nbytes) then next_pool nbytes w else w

-- The placement new of a block of `nbytes` at the pool's free end, and the last block's registers.
unfoldable pub place_block : ℕ → WriteBuffer → WriteBuffer
place_block nbytes w = record w {
  last = new_block nbytes (in_pool w.current_pool w.pool_used) [] 0;
  pool_used = w.pool_used + nbytes;
  lb_capacity = nbytes;
  lb_size = 0;
  lb_upto = 0;
}

-- What put, write and copy_from do where the last block has no room.
unfoldable pub open_block : ℕ → WriteBuffer → WriteBuffer
unfolding flush next_block next_pool require_pool place_block
open_block nbytes w = place_block nbytes (require_pool nbytes (next_block (flush w)))

-- The copy to `_lb_upto` and the additions behind it.
unfoldable pub store : List ℕ → WriteBuffer → WriteBuffer
store bs w = record w {
  last = record w.last { content = take w.lb_upto w.last.content ++ bs };
  lb_upto = w.lb_upto + length bs;
  lb_size = w.lb_size + length bs;
  size = w.size + length bs;
}

unfoldable pub put : ℕ → WriteBuffer → WriteBuffer
put c w = store (c ∷ []) (if w.lb_size == w.lb_capacity then open_block w.block_size w else w)

unfoldable pub write : List ℕ → WriteBuffer → WriteBuffer
write bs w =
    store bs (if ltb w.lb_capacity (w.lb_size + length bs) then open_block (length bs) w else w)

unfoldable pub write_zerocopy : List ℕ → WriteBuffer → WriteBuffer
unfolding flush next_block
write_zerocopy bs w =
    let w' = next_block (flush w) in
    record w' {
      last = new_block (length bs) external bs (length bs);
      lb_capacity = length bs;
      lb_size = length bs;
      lb_upto = length bs;
      size = w'.size + length bs;
    }

-- `out.write(_blocks[i].data, _blocks[i].size)` for each block.
unfoldable pub block_bytes : List Block → List ℕ
block_bytes [] = []
block_bytes (b ∷ bs) = take b.size b.content ++ block_bytes bs

-- What copy_to writes, beside the buffer that it leaves.
unfoldable pub copy_to : WriteBuffer → List ℕ × WriteBuffer
unfolding flush block_bytes
copy_to w = let w' = flush w in (block_bytes (w'.blocks ++ w'.last ∷ []), w')

-- The copies of the other buffer's blocks, one behind the other; only `_lb_upto` moves with them.
unfoldable pub copy_blocks : List Block → WriteBuffer → WriteBuffer
copy_blocks [] w = w
copy_blocks (b ∷ bs) w = copy_blocks bs (record w {
  last = record w.last { content = take w.lb_upto w.last.content ++ take b.size b.content };
  lb_upto = w.lb_upto + b.size;
})

-- The additions behind the loop of copies.
abbrev counted : ℕ → WriteBuffer → WriteBuffer
counted n w = record w { lb_size = w.lb_size + n; size = w.size + n }

-- Both buffers: the other one's last block has its size set on the way.
unfoldable pub copy_from : WriteBuffer → WriteBuffer → WriteBuffer × WriteBuffer
unfolding flush copy_blocks
copy_from o w =
    let o' = flush o in
    let w' = if ltb w.lb_capacity (w.lb_size + o.size) then open_block o.size w else w in
    (o', counted o.size (copy_blocks (o'.blocks ++ o'.last ∷ []) w'))
