-- ===== src/BlockVector.antt =====
-- src/lib/schwa/containers/block_vector.h and block_vector_impl.h: a vector in blocks that never move, so
-- that references to its elements stay good.
pub mod Elements
pub mod Addresses
pub mod References
pub mod Walks
use libschwa.Prelude.{
  ℕ, zero, suc, ◌+◌, ◌-◌, ◌*◌, ◌/◌, Bool, true, false, ◌&&◌, Option, none, some, List, [], ◌∷◌,
  ◌++◌, length, ltb, leb, ◌==◌, if◌then◌else◌, get_elem?,
}
use mathlib.Core.Option

-- Block: `base` is the address of its first element, right behind the block's own fields; `elems` are
-- its `_size` elements.
pub record Block (A : Type 0) : Type 0 where
  pub base : ℕ
  pub capacity : ℕ
  pub elems : List A

-- `blocks` is the chain from `_first` along `_next`; `_last` is its last block.
pub record BlockVector (A : Type 0) : Type 0 where
  pub blocks : List (Block A)

-- Iterator: the chain from `_block` on, which is empty for a null pointer, with `_it` and `_end` as
-- indices in that block.
pub record Iterator (A : Type 0) : Type 0 where
  pub chain : List (Block A)
  pub it : ℕ
  pub end : ℕ

module _ {A : Type 0} where
  unfoldable pub size : Block A → ℕ
  size b = length b.elems

  unfoldable pub full : Block A → Bool
  unfolding size
  full b = size b == b.capacity

  -- Block::create(other).
  unfoldable pub create : A → Block A → Block A
  create other b = record b { elems = b.elems ++ other ∷ [] }

  -- The constructor BlockVector().
  abbrev pub new_vector : BlockVector A
  new_vector = record { blocks = [] }

  -- BlockVector::get; `none` is the failed assertion.
  unfoldable pub get_from : ℕ → List (Block A) → Option A
  unfolding size
  get_from i [] = none
  get_from i (b ∷ bs) = if ltb i (size b) then get_elem? b.elems i else get_from (i - size b) bs

  unfoldable pub get : ℕ → BlockVector A → Option A
  unfolding get_from
  get i v = get_from i v.blocks

  -- The address of the reference that get returns, for elements of `w` bytes.
  unfoldable pub address_from : ℕ → ℕ → List (Block A) → Option ℕ
  unfolding size
  address_from w i [] = none
  address_from w i (b ∷ bs) =
      if ltb i (size b) then some (b.base + i * w) else address_from w (i - size b) bs

  -- BlockVector::index_of, of the object at `ptr`.
  unfoldable pub index_from : ℕ → ℕ → ℕ → List (Block A) → Option ℕ
  unfolding size
  index_from w ptr n [] = none
  index_from w ptr n (b ∷ bs) =
      if leb b.base ptr && ltb ptr (b.base + size b * w)
      then some (n + (ptr - b.base) / w)
      else index_from w ptr (n + size b) bs

  unfoldable pub index_of : ℕ → ℕ → BlockVector A → Option ℕ
  unfolding index_from
  index_of w ptr v = index_from w ptr 0 v.blocks

  unfoldable pub nblocks : BlockVector A → ℕ
  nblocks v = length v.blocks

  unfoldable pub size_of : List (Block A) → ℕ
  unfolding size
  size_of [] = 0
  size_of (b ∷ bs) = size b + size_of bs

  -- push_back on the chain: its last block gets the object. `none` is a failed assertion.
  unfoldable pub push_last : A → List (Block A) → Option (List (Block A))
  unfolding full create
  push_last obj [] = none
  push_last obj (b ∷ []) = if full b then none else some (create obj b ∷ [])
  push_last obj (b ∷ c ∷ bs) = Option.map (λ cs. b ∷ cs) (push_last obj (c ∷ bs))

  unfoldable pub push_back : A → BlockVector A → Option (BlockVector A)
  unfolding push_last
  push_back obj v = Option.map (λ bs. record { blocks = bs }) (push_last obj v.blocks)

  -- reserve; `data` is where malloc put the new block's elements, `none` a failed assertion.
  unfoldable pub reserve : Option ℕ → ℕ → BlockVector A → Option (BlockVector A)
  reserve none nelem v = none
  reserve (some data_) nelem v =
      some
        (record { blocks = v.blocks ++ record { base = data_; capacity = nelem; elems = [] } ∷ [] })

  -- increment_it: on to the next block that has elements.
  unfoldable pub skip : List (Block A) → ℕ → ℕ → Iterator A
  unfolding size
  skip [] it end = record { chain = []; it = 0; end = 0 }
  skip (b ∷ []) it end =
      if it == end
      then record { chain = []; it = 0; end = 0 }
      else record { chain = b ∷ []; it = it; end = end }
  skip (b ∷ c ∷ bs) it end =
      let rest = skip (c ∷ bs) 0 (size c) in
      if it == end then rest else record { chain = b ∷ c ∷ bs; it = it; end = end }

  unfoldable pub increment_it : Iterator A → Iterator A
  unfolding skip
  increment_it i = skip i.chain i.it i.end

  -- The constructor Iterator(block), on the chain from `block` on.
  unfoldable pub iterator : List (Block A) → Iterator A
  unfolding increment_it size
  iterator [] = increment_it (record { chain = []; it = 0; end = 0 })
  iterator (b ∷ bs) = increment_it (record { chain = b ∷ bs; it = 0; end = size b })

  unfoldable pub begin : BlockVector A → Iterator A
  unfolding iterator
  begin v = iterator v.blocks

  -- operator ++.
  unfoldable pub advance : Iterator A → Iterator A
  unfolding increment_it
  advance i = increment_it (record i { it = i.it + 1 })

  -- operator *; `none` is a read through a null pointer or past the block.
  unfoldable pub deref : Iterator A → Option A
  deref i = elim i.chain [ [] ↦ none | b ∷ bs ↦ get_elem? b.elems i.it ]

  -- The comparison with `end()`, whose block is null.
  unfoldable pub at_end : Iterator A → Bool
  at_end i = elim i.chain [ [] ↦ true | b ∷ bs ↦ false ]

  -- `for (it = begin(); it != end(); ++it)`: what `*it` gives, in order; `none` is a bad read, or a
  -- loop that has not ended after `fuel` rounds.
  unfoldable pub walk : ℕ → Iterator A → Option (List A)
  unfolding advance deref at_end
  walk zero i = none
  walk (suc fuel) i =
      let rest = walk fuel (advance i) in
      if at_end i
      then some []
      else elim (deref i) [ none ↦ none | some a ↦ Option.map (λ as_. a ∷ as_) rest ]
