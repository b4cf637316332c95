-- ===== src/BlockVector/Addresses.antt =====
-- The addresses of a BlockVector's elements (src/lib/schwa/containers/block_vector_impl.h): index_of, and
-- which calls leave references good.
use native.Mathlib.Nat.{mul-le-mul_right, mul-div_cancel, suc-mul}
use libschwa.Prelude.{
  ℕ, suc, ◌+◌, ◌-◌, ◌*◌, ◌<◌, ◌≤◌, ◌≡◌, refl, sym, ap, ap₂, ◌∙◌, ◌⊎◌, inl, inr, true, false, ◌&&◌,
  some, List, [], ◌∷◌, length, ltb, leb, ltb→lt, Bool-cases, arith, All,
}
use mathlib.Core.Option
use libschwa.BlockVector.{Block, BlockVector, size, address_from, index_from, index_of}

-- Blocks of elements of `w` bytes that have no byte in common.
abbrev pub AreApart : {A : Type 0} → ℕ → Block A → Block A → Type 0
AreApart w b c = (b.base + b.capacity * w ≤ c.base) ⊎ (c.base + c.capacity * w ≤ b.base)

-- No block holds more than its capacity, and malloc gave each its own memory.
abbrev pub AreValid : {A : Type 0} → ℕ → List (Block A) → Type 0
AreValid w [] = Unit {0}
AreValid w (b ∷ bs) = ((length b.elems ≤ b.capacity) × All (AreApart w b) bs) × AreValid w bs

module _ {A : Type 0} (w : ℕ) where
  -- An element lies between the ends of its block.
  in_block : (b : Block A) (i : ℕ) → i < length b.elems → i * w + w ≤ length b.elems * w
  in_block b i h =
      let e : suc i * w ≤ length b.elems * w = mul-le-mul_right w (omega (arith, h)) in
      omega (arith, e, suc-mul i w)

  pub address_here :
      (b : Block A) (bs : List (Block A)) (i : ℕ)
      → ltb i (length b.elems) ≡ true
      → address_from w i (b ∷ bs) ≡ some (b.base + i * w)
  unfolding address_from size
  address_here b bs i t = rw t

  pub address_later :
      (b : Block A) (bs : List (Block A)) (i : ℕ)
      → ltb i (length b.elems) ≡ false
      → address_from w i (b ∷ bs) ≡ address_from w (i - length b.elems) bs
  unfolding address_from size
  address_later b bs i t = rw t

  -- An element of one block lies outside another.
  outside :
      (b : Block A) (bs : List (Block A)) (i ptr : ℕ)
      → 0 < w
      → All (AreApart w b) bs
      → AreValid w bs
      → address_from w i bs ≡ some ptr
      → (ptr < b.base) ⊎ (b.base + b.capacity * w ≤ ptr)
  unfolding address_from
  outside b [] i ptr pos apart v e = cc e
  outside b (c ∷ bs) i ptr pos apart v e = elim (Bool-cases (ltb i (length c.elems))) [
    | inl t ↦
        let p : c.base + i * w ≡ ptr =
          Option.some-injective _ _ (sym (address_here c bs i t) ∙ e) in
        let f : i * w + w ≤ length c.elems * w = in_block c i (ltb→lt _ _ t) in
        let g : length c.elems * w ≤ c.capacity * w = mul-le-mul_right w v.0.0 in
        elim apart.0 [
          | inl a ↦ inr (omega (arith, a, p))
          | inr a ↦ inl (omega (arith, a, p, f, g, pos))
        ]
    | inr t ↦
        outside b bs (i - length c.elems) ptr pos apart.1 v.1 (sym (address_later c bs i t) ∙ e)
  ]

  -- index_of's test on a block, by where the object lies.
  test_here :
      (b : Block A) (i ptr : ℕ)
      → 0 < w
      → i < length b.elems
      → b.base + i * w ≡ ptr
      → (leb b.base ptr && ltb ptr (b.base + length b.elems * w)) ≡ true
  test_here b i ptr pos h p =
      let f : i * w + w ≤ length b.elems * w = in_block b i h in
      let s : leb b.base ptr ≡ true = ground (arith, p) in
      let t : ltb ptr (b.base + length b.elems * w) ≡ true = ground (arith, p, f, pos) in
      ap₂ ◌&&◌ s t

  test_outside :
      (b : Block A) (ptr : ℕ)
      → length b.elems ≤ b.capacity
      → (ptr < b.base) ⊎ (b.base + b.capacity * w ≤ ptr)
      → (leb b.base ptr && ltb ptr (b.base + length b.elems * w)) ≡ false
  test_outside b ptr fits (inl h) = let s : leb b.base ptr ≡ false = ground arith in rw s
  test_outside b ptr fits (inr h) =
      let g : length b.elems * w ≤ b.capacity * w = mul-le-mul_right w fits in
      let s : leb b.base ptr ≡ true = ground arith in
      let t : ltb ptr (b.base + length b.elems * w) ≡ false = ground arith in ap₂ ◌&&◌ s t

  index_from-address_from :
      (bs : List (Block A)) (n i ptr : ℕ)
      → 0 < w
      → AreValid w bs
      → address_from w i bs ≡ some ptr
      → index_from w ptr n bs ≡ some (n + i)
  unfolding index_from address_from size
  index_from-address_from [] n i ptr pos v e = cc e
  index_from-address_from (b ∷ bs) n i ptr pos v e = elim (Bool-cases (ltb i (length b.elems))) [
    | inl t ↦
        let p : b.base + i * w ≡ ptr =
          Option.some-injective _ _ (sym (address_here b bs i t) ∙ e) in
        let d : ptr - b.base ≡ i * w = omega (arith, p) in
        rw (test_here b i ptr pos (ltb→lt _ _ t) p, d, mul-div_cancel i pos) refl
    | inr t ↦
        let later : address_from w (i - length b.elems) bs ≡ some ptr =
          sym (address_later b bs i t) ∙ e in
        let m : n + length b.elems + (i - length b.elems) ≡ n + i = ground arith in
        rw (test_outside b ptr v.0.0 (outside b bs _ ptr pos v.0.1 v.1 later)) (
          index_from-address_from bs (n + length b.elems) (i - length b.elems) ptr pos v.1 later
          ∙ ap some m)
  ]

  -- In a vector whose blocks lie apart and hold no more than their capacity, index_of finds the index
  -- of an element from the address of the reference that get returns for that index.
  pub index_of-address_from :
      (v : BlockVector A) (i ptr : ℕ)
      → 0 < w
      → AreValid w v.blocks
      → address_from w i v.blocks ≡ some ptr
      → index_of w ptr v ≡ some i
  unfolding index_of
  index_of-address_from v i ptr pos valid e =
      let z : 0 + i ≡ i = omega arith in
      index_from-address_from v.blocks 0 i ptr pos valid e ∙ ap some z
