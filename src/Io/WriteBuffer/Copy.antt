-- ===== src/Io/WriteBuffer/Copy.antt =====
-- copy_from of src/lib/schwa/io/write_buffer.cc.
use libschwa.Prelude.{
  ℕ, ◌+◌, ◌≡◌, refl, sym, ap, ap₂, ◌∙◌, List, [], ◌∷◌, ◌++◌, length, take, ltb, arith, append-nil,
  append_assoc, length-append, take_all, All, Bool-cases, inl, inr,
}
use libschwa.Io.WriteBuffer.Contents.{
  IsClosed, IsValid, contents, blocks-IsClosed, closed_bytes, Ready, store-Ready, open_block-Ready,
}
use libschwa.Io.WriteBuffer.{
  Block, WriteBuffer, store, counted, block_bytes, copy_blocks, copy_from,
}

abbrev copied : WriteBuffer → List ℕ → ℕ → WriteBuffer
copied w bs n = record w { last = record w.last { content = bs }; lb_upto = n }

-- The copies append the other buffer's blocks to the last block and move `_lb_upto` alone.
copy_blocks_lem :
    (bs : List Block) (w : WriteBuffer)
    → All IsClosed bs
    → w.lb_upto ≡ length w.last.content
    → copy_blocks bs w
      ≡ copied w (w.last.content ++ block_bytes bs) (w.lb_upto + length (block_bytes bs))
unfolding copy_blocks block_bytes
copy_blocks_lem [] w c h = ap₂ (copied w) (sym (append-nil w.last.content)) (omega arith)
copy_blocks_lem (b ∷ bs) w c h =
    copy_blocks_lem bs next c.1
      (omega (arith, h, ap length front, length-append w.last.content part, whole))
    ∙ ap₂ (copied w)
        (ap (λ t. t ++ block_bytes bs) front ∙ append_assoc w.last.content part (block_bytes bs))
        (omega (arith, whole, length-append part (block_bytes bs)))
  where
    part : List ℕ
    part = take b.size b.content

    next : WriteBuffer
    next = copied w (take w.lb_upto w.last.content ++ part) (w.lb_upto + b.size)

    front : take w.lb_upto w.last.content ++ part ≡ w.last.content ++ part
    front = ap (λ t. t ++ part) (take_all w.lb_upto w.last.content (omega (arith, h)))

    whole : length part ≡ b.size
    whole = ap length (take_all b.size b.content (omega (arith, c.0.sized))) ∙ c.0.sized

module _ (o w : WriteBuffer) (q : IsValid o) (v : IsValid w) where
  abbrev closed_blocks : List Block
  closed_blocks = o.blocks ++ record o.last { size = o.lb_size } ∷ []

  -- With the additions behind them, the copies are one store of all the other buffer's bytes.
  copies-store :
      (w' : WriteBuffer)
      → IsValid w'
      → counted o.size (copy_blocks closed_blocks w') ≡ store (contents o) w'
  copies-store w' r =
      ap (counted o.size)
        (copy_blocks_lem closed_blocks w' (blocks-IsClosed o q) (omega (arith, r.upto, r.filled)))
      ∙ unfold store in
        λ i. record w' {
          last = record w'.last { content = grown i };
          lb_upto = w'.lb_upto + length (closed_bytes o q i);
          lb_size = w'.lb_size + q.total i;
          size = w'.size + q.total i;
        }
    where
      grown :
          w'.last.content ++ block_bytes closed_blocks
          ≡ take w'.lb_upto w'.last.content ++ contents o
      grown =
          ap₂ (λ s t. s ++ t)
            (sym (take_all w'.lb_upto w'.last.content (omega (arith, r.upto, r.filled))))
            (closed_bytes o q)

  copies-Ready :
      {w' : WriteBuffer}
      → Ready w (contents o) w'
      → IsValid (counted o.size (copy_blocks closed_blocks w'))
        × (contents (counted o.size (copy_blocks closed_blocks w')) ≡ contents w ++ contents o)
  copies-Ready {w'} r = rw (copies-store w' r.valid) (store-Ready w (contents o) r)

  grows : IsValid (copy_from o w).1 × (contents (copy_from o w).1 ≡ contents w ++ contents o)
  unfolding copy_from
  grows = elim (Bool-cases (ltb w.lb_capacity (w.lb_size + o.size))) [
    | inl e ↦
        rw e (copies-Ready (open_block-Ready w (contents o) v o.size (omega (arith, q.total))))
    | inr e ↦
        rw e (copies-Ready (record { still = refl; valid = v; room = ground (arith, q.total) }))
  ]

  -- From valid buffers, copy_from leaves a valid buffer, with all blocks in bounds of their pools and apart, that
  -- holds its old bytes followed by all the other buffer's bytes, and leaves the other buffer's bytes as they are.
  pub copy_from_lem :
      IsValid (copy_from o w).1
      × (contents (copy_from o w).1 ≡ contents w ++ contents o)
      × (contents (copy_from o w).0 ≡ contents o)
  copy_from_lem = (grows.0, grows.1, unfold copy_from contents in refl)
