-- ===== src/Tests/BlockVector.antt =====
-- Tests of the BlockVector modules, and the witnesses of their theorems.
use libschwa.Prelude.{◌<◌, ℕ, ◌≡◌, ◌≢◌, ◌⊎◌, ◌++◌, none, refl, arith, some, [], ◌∷◌, inl, inr}
use libschwa.BlockVector.{
  size_of, reserve, BlockVector, size, full, create, address_from, index_of, push_last, push_back,
  begin, walk,
}
use libschwa.BlockVector.Elements.{push_back-IsPushed, IsPushed, blocks_of}
use libschwa.BlockVector.Addresses.{AreValid, index_of-address_from}
use libschwa.BlockVector.References.{IsKeptIfSome, push_back-IsKept, reserve-AreValid}
use libschwa.BlockVector.Walks.{walk-begin}

-- A full block of two, an empty block without room, and one of three with a single element.
abbrev three_blocks : BlockVector ℕ
three_blocks = record {
  blocks =
      record { base = 1000; capacity = 2; elems = 7 ∷ 8 ∷ [] }
      ∷ record { base = 2000; capacity = 0; elems = [] }
      ∷ record { base = 500; capacity = 3; elems = 9 ∷ [] }
      ∷ [];
}

built :
    push_back {A = ℕ} 8
      (record { blocks = record { base = 1000; capacity = 2; elems = 7 ∷ [] } ∷ [] })
    ≡ some (record { blocks = record { base = 1000; capacity = 2; elems = 7 ∷ 8 ∷ [] } ∷ [] })
unfolding push_back push_last full create size
built = refl

abbrev three_blocks_valid : AreValid 8 three_blocks.blocks
three_blocks_valid =
    ((
      (omega arith, (inl (omega arith), (inr (omega arith), tt))),
      ((omega arith, (inr (omega arith), tt)), ((omega arith, tt), tt)),
    ))

push_back-IsPushed_example : IsPushed 10 three_blocks.blocks (blocks_of (push_back 10 three_blocks))
push_back-IsPushed_example = push_back-IsPushed 10 three_blocks

index_of-address_from_example : index_of 8 500 three_blocks ≡ some 2
unfolding address_from size
index_of-address_from_example =
    index_of-address_from 8 three_blocks 2 500 (omega arith) three_blocks_valid refl

push_back-IsKept_example : IsKeptIfSome 8 three_blocks.blocks (push_back 10 three_blocks)
push_back-IsKept_example = push_back-IsKept 8 10 three_blocks

walk-begin_example : walk 4 (begin three_blocks) ≡ some (7 ∷ 8 ∷ 9 ∷ [])
walk-begin_example = walk-begin three_blocks 4 (omega arith)

reserve-AreValid_example :
    (v : BlockVector ℕ) × (reserve (some 4000) 2 three_blocks ≡ some v)
    × AreValid 8 v.blocks
    × ((i : ℕ)
        → i < size_of three_blocks.blocks
        → address_from 8 i v.blocks ≡ address_from 8 i three_blocks.blocks)
    × (v.blocks ≡ three_blocks.blocks ++ record { base = 4000; capacity = 2; elems = [] } ∷ [])
    × ((obj : ℕ) → (◌≡◌ {A = ℕ} 2 0) ⊎ (push_back obj v ≢ none))
reserve-AreValid_example =
    reserve-AreValid 8 4000 2 three_blocks three_blocks_valid
      (inl (omega arith), (inl (omega arith), (inl (omega arith), tt)))
