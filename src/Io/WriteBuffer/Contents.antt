-- ===== src/Io/WriteBuffer/Contents.antt =====
-- What a WriteBuffer holds (src/lib/schwa/io/write_buffer.cc): the bytes that copy_to writes, and how
-- each operation adds to them.
use libschwa.Prelude.{
  ℕ, ◌+◌, ◌≤◌, ◌<◌, ◌≡◌, refl, sym, ap, ◌∙◌, List, [], ◌∷◌, ◌++◌, length, take, ltb, ◌==◌, arith,
  append-nil, append_assoc, length-append, take_all, All, All-append, Bool-cases, inl, inr,
}
use libschwa.Io.Stream.{Out}
use libschwa.Io.WriteBuffer.Places.{
  ArePlaced, create-ArePlaced, open_block-ArePlaced, store-ArePlaced, write_zerocopy-ArePlaced,
}
use libschwa.Io.WriteBuffer.{
  Block, WriteBuffer, create, flush, next_block, require_pool, place_block, open_block, store, put,
  write, write_zerocopy, block_bytes, copy_to,
}

-- A block behind which another one was opened: its `size` tells its content.
pub record IsClosed (b : Block) : Type 0 where
  pub sized : length b.content ≡ b.size
  pub room : b.size ≤ b.capacity

-- The bytes written so far.
unfoldable pub contents : WriteBuffer → List ℕ
contents w = block_bytes w.blocks ++ w.last.content

-- The counts agree with what the blocks hold, and the blocks lie in bounds of their pools and apart.
pub record IsValid (w : WriteBuffer) : Type 0 where
  pub placed : ArePlaced w
  pub positive : 0 < w.block_size
  pub upto : w.lb_upto ≡ w.lb_size
  pub filled : length w.last.content ≡ w.lb_size
  pub capacity : w.last.capacity ≡ w.lb_capacity
  pub fits : w.lb_size ≤ w.lb_capacity
  pub closed : All IsClosed w.blocks
  pub total : w.size ≡ length (contents w)

pub block_bytes-append :
    (xs ys : List Block) → block_bytes (xs ++ ys) ≡ block_bytes xs ++ block_bytes ys
unfolding block_bytes
block_bytes-append [] ys = refl
block_bytes-append (x ∷ xs) ys =
    ap (λ t. take x.size x.content ++ t) (block_bytes-append xs ys)
    ∙ sym (append_assoc (take x.size x.content) (block_bytes xs) (block_bytes ys))

block_bytes-one : (b : Block) → length b.content ≡ b.size → block_bytes (b ∷ []) ≡ b.content
unfolding block_bytes
block_bytes-one b h = append-nil (take b.size b.content) ∙ take_all b.size b.content (omega arith)

pub create-IsValid :
    (block_size nblocks pool_size npools : ℕ)
    → 0 < block_size
    → block_size ≤ pool_size
    → IsValid (create block_size nblocks pool_size npools)
unfolding create contents block_bytes
create-IsValid block_size nblocks pool_size npools h l = record {
  placed = create-ArePlaced block_size nblocks pool_size npools l;
  positive = h;
  upto = refl;
  filled = refl;
  capacity = refl;
  fits = omega arith;
  closed = tt;
  total = refl;
}

module _ (w : WriteBuffer) (v : IsValid w) where
  pub blocks-IsClosed : All IsClosed (w.blocks ++ record w.last { size = w.lb_size } ∷ [])
  blocks-IsClosed =
      All-append IsClosed w.blocks _ v.closed
        (record { sized = v.filled; room = omega (arith, v.capacity, v.fits) }, tt)

  pub closed_bytes : block_bytes (w.blocks ++ record w.last { size = w.lb_size } ∷ []) ≡ contents w
  unfolding contents
  closed_bytes =
      block_bytes-append w.blocks _
      ∙ ap (λ t. block_bytes w.blocks ++ t) (block_bytes-one _ v.filled)

  -- From a valid buffer, copy_to writes the buffer's bytes: those of its closed blocks in order, and
  -- then those of its last block.
  pub copy_to-contents : (copy_to w).0 ≡ contents w
  unfolding copy_to
  copy_to-contents = closed_bytes

  -- What opening a block leaves, with the registers of the new block.
  pub record Opened (n : ℕ) (w' : WriteBuffer) : Type 0 where
    pub still : contents w' ≡ contents w
    pub valid : IsValid w'
    pub empty : w'.lb_size ≡ 0
    pub large : w'.lb_capacity ≡ n

  place_block-Opened :
      (n : ℕ) (u : WriteBuffer)
      → u.blocks ≡ w.blocks ++ record w.last { size = w.lb_size } ∷ []
      → u.block_size ≡ w.block_size
      → u.size ≡ w.size
      → ArePlaced (place_block n u)
      → Opened n (place_block n u)
  unfolding place_block contents
  place_block-Opened n u e b z p = record {
    still = whole;
    valid = record {
      placed = p;
      positive = omega (arith, b, v.positive);
      upto = refl;
      filled = refl;
      capacity = refl;
      fits = omega arith;
      closed = rw e blocks-IsClosed;
      total = z ∙ v.total ∙ ap length (sym whole);
    };
    empty = refl;
    large = refl;
  }
    where
      whole : contents (place_block n u) ≡ contents w
      whole = append-nil (block_bytes u.blocks) ∙ ap block_bytes e ∙ closed_bytes

  open_block-Opened : (n : ℕ) → Opened n (open_block n w)
  unfolding open_block
  open_block-Opened n =
      place_block-Opened n (require_pool n (next_block (flush w))) (ground arith) (ground arith)
        (ground arith) (open_block-ArePlaced n w v.placed)

-- `w'` has the bytes of `w`, and room for as many as `bs` has.
pub record Ready (w : WriteBuffer) (bs : List ℕ) (w' : WriteBuffer) : Type 0 where
  pub still : contents w' ≡ contents w
  pub valid : IsValid w'
  pub room : w'.lb_size + length bs ≤ w'.lb_capacity

store-contents :
    (w : WriteBuffer) (bs : List ℕ) → IsValid w → contents (store bs w) ≡ contents w ++ bs
unfolding store contents
store-contents w bs v =
    ap (λ t. block_bytes w.blocks ++ (t ++ bs))
      (take_all w.lb_upto w.last.content (omega (arith, v.upto, v.filled)))
    ∙ sym (append_assoc (block_bytes w.blocks) w.last.content bs)

store-IsValid :
    (w : WriteBuffer) (bs : List ℕ)
    → IsValid w
    → w.lb_size + length bs ≤ w.lb_capacity
    → IsValid (store bs w)
store-IsValid w bs v h =
    unfold store in
    record {
      placed = store-ArePlaced bs w v.placed;
      positive = v.positive;
      upto = omega (arith, v.upto);
      filled =
          length-append (take w.lb_upto w.last.content) bs
          ∙ ap (λ t. length t + length bs)
              (take_all w.lb_upto w.last.content (omega (arith, v.upto, v.filled)))
          ∙ ap (λ t. t + length bs) v.filled;
      capacity = v.capacity;
      fits = h;
      closed = v.closed;
      total =
          omega (arith, v.total, ap length (store-contents w bs v), length-append (contents w) bs);
    }

module _ (w : WriteBuffer) (bs : List ℕ) where
  pub store-Ready :
      {w' : WriteBuffer}
      → Ready w bs w'
      → IsValid (store bs w') × (contents (store bs w') ≡ contents w ++ bs)
  store-Ready {w'} r =
      (store-IsValid w' bs r.valid r.room, store-contents w' bs r.valid ∙ ap (λ t. t ++ bs) r.still)

  pub open_block-Ready : IsValid w → (n : ℕ) → length bs ≤ n → Ready w bs (open_block n w)
  open_block-Ready v n h =
      let r = open_block-Opened w v n in
      record { still = r.still; valid = r.valid; room = omega (arith, r.empty, r.large) }

module _ (w : WriteBuffer) (v : IsValid w) where
  -- From a valid buffer, put leaves a valid buffer, with all blocks in bounds of their pools and apart, whose bytes
  -- are the old ones followed by the byte.
  pub put_lem : (c : ℕ) → IsValid (put c w) × (contents (put c w) ≡ contents w ++ c ∷ [])
  unfolding put
  put_lem c = elim (Bool-cases (w.lb_size == w.lb_capacity)) [
    | inl e ↦ rw e (store-Ready w (c ∷ []) (open_block-Ready w (c ∷ []) v w.block_size v.positive))
    | inr e ↦
        rw e (
          store-Ready w (c ∷ [])
            (record { still = refl; valid = v; room = ground (arith, v.fits) }))
  ]

  -- From a valid buffer, write leaves a valid buffer, with all blocks in bounds of their pools and apart, whose
  -- bytes are the old ones followed by the bytes given, whether or not a block or a pool had to be opened.
  pub write_lem : (bs : List ℕ) → IsValid (write bs w) × (contents (write bs w) ≡ contents w ++ bs)
  unfolding write
  write_lem bs = elim (Bool-cases (ltb w.lb_capacity (w.lb_size + length bs))) [
    | inl e ↦ rw e (store-Ready w bs (open_block-Ready w bs v (length bs) (omega arith)))
    | inr e ↦ rw e (store-Ready w bs (record { still = refl; valid = v; room = ground arith }))
  ]

  -- From a valid buffer, write_zerocopy leaves a valid buffer whose bytes are the old ones followed by
  -- the bytes given.
  pub write_zerocopy_lem :
      (bs : List ℕ)
      → IsValid (write_zerocopy bs w) × (contents (write_zerocopy bs w) ≡ contents w ++ bs)
  unfolding write_zerocopy contents
  write_zerocopy_lem bs = (
    record {
      placed = write_zerocopy-ArePlaced bs w v.placed;
      positive = v.positive;
      upto = refl;
      filled = refl;
      capacity = refl;
      fits = omega arith;
      closed = blocks-IsClosed w v;
      total = omega (
        arith,
        v.total,
        ap length (closed_bytes w v),
        length-append (block_bytes (w.blocks ++ record w.last { size = w.lb_size } ∷ [])) bs,
      );
    },
    ap (λ t. t ++ bs) (closed_bytes w v),
  )

-- A WriteBuffer is a byte sink.
unfoldable pub buffer_out : Out WriteBuffer IsValid
buffer_out = record {
  bytes = contents;
  put = put;
  write = write;
  write_zerocopy = write_zerocopy;
  put-IsValid = λ c w v. (put_lem w v c).0;
  put_bytes = λ c w v. (put_lem w v c).1;
  write-IsValid = λ bs w v. (write_lem w v bs).0;
  write_bytes = λ bs w v. (write_lem w v bs).1;
  write_zerocopy-IsValid = λ bs w v. (write_zerocopy_lem w v bs).0;
  write_zerocopy_bytes = λ bs w v. (write_zerocopy_lem w v bs).1;
}
