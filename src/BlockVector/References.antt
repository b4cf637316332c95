-- ===== src/BlockVector/References.antt =====
-- push_back and reserve of src/lib/schwa/containers/block_vector_impl.h move no element.
use libschwa.Prelude.{
  ℕ, ◌+◌, ◌-◌, ◌<◌, ◌≡◌, ◌≢◌, ◌⊎◌, ◌==◌, ==_iff, refl, sym, ◌∙◌, inl, inr, true, false, Option,
  none, some, List, [], ◌∷◌, ◌++◌, length, length-append, ltb, Bool-cases, arith, All, All-append,
}
use mathlib.Core.Option
use libschwa.BlockVector.{
  Block, BlockVector, size, full, create, address_from, size_of, push_last, push_back, reserve,
}
use libschwa.BlockVector.Addresses.{AreApart, AreValid, address_here, address_later}

map-some : {A B : Type 0} {o : Option A} (f : A → B) → o ≢ none → Option.map f o ≢ none
map-some {o = none} f h e = h refl
map-some {o = some a} f h e = cc e

module _ {A : Type 0} (w : ℕ) where
  -- From `bs` to `cs` every address stays, and the blocks stay valid and apart from what they were
  -- apart from.
  pub record IsKept (bs cs : List (Block A)) : Type 0 where
    pub valid : AreValid w bs → AreValid w cs
    pub apart : (b : Block A) → All (AreApart w b) bs → All (AreApart w b) cs
    pub address : (i : ℕ) → i < size_of bs → address_from w i cs ≡ address_from w i bs

  abbrev pub IsKeptIfSome : List (Block A) → Option (BlockVector A) → Type 0
  IsKeptIfSome bs none = Unit {0}
  IsKeptIfSome bs (some v) = IsKept bs v.blocks

  create-IsKept : (obj : A) (b : Block A) → full b ≡ false → IsKept (b ∷ []) (create obj b ∷ [])
  unfolding full create size size_of
  create-IsKept obj b h = record {
    valid = λ v. ((ground (arith, grown, v.0.0), tt), tt);
    apart = λ c a. a;
    address = λ i l.
        let t : ltb i (length b.elems) ≡ true = ground arith in
        let t' : ltb i (length (b.elems ++ obj ∷ [])) ≡ true = ground (arith, grown) in
        address_here w (create obj b) [] i t' ∙ sym (address_here w b [] i t);
  }
    where
      grown : length (b.elems ++ obj ∷ []) ≡ length b.elems + 1
      grown = length-append b.elems (obj ∷ [])

  IsKept-cons : (b : Block A) (bs cs : List (Block A)) → IsKept bs cs → IsKept (b ∷ bs) (b ∷ cs)
  unfolding size_of size
  IsKept-cons b bs cs k = record {
    valid = λ v. ((v.0.0, k.apart b v.0.1), k.valid v.1);
    apart = λ c a. (a.0, k.apart c a.1);
    address = λ i l. elim (Bool-cases (ltb i (length b.elems))) [
      | inl t ↦ address_here w b cs i t ∙ sym (address_here w b bs i t)
      | inr t ↦
          address_later w b cs i t
          ∙ k.address (i - length b.elems) (ground arith)
          ∙ sym (address_later w b bs i t)
    ];
  }

  abbrev KeptChain : List (Block A) → Option (List (Block A)) → Type 0
  KeptChain bs none = Unit {0}
  KeptChain bs (some cs) = IsKept bs cs

  push_last-KeptChain : (obj : A) (bs : List (Block A)) → KeptChain bs (push_last obj bs)
  unfolding push_last
  push_last-KeptChain obj [] = tt
  push_last-KeptChain obj (b ∷ []) = elim (Bool-cases (full b)) [
    | inl e ↦ rw e tt
    | inr e ↦ rw e (create-IsKept obj b e)
  ]
  push_last-KeptChain obj (b ∷ c ∷ bs) =
      cons (push_last obj (c ∷ bs)) (push_last-KeptChain obj (c ∷ bs))
    where
      cons :
          (o : Option (List (Block A)))
          → KeptChain (c ∷ bs) o
          → KeptChain (b ∷ c ∷ bs) (Option.map (λ cs. b ∷ cs) o)
      cons none k = tt
      cons (some cs) k = IsKept-cons b (c ∷ bs) cs k

  -- push_back moves no element: every address stays, and the blocks stay valid.
  pub push_back-IsKept : (obj : A) (v : BlockVector A) → IsKeptIfSome v.blocks (push_back obj v)
  unfolding push_back
  push_back-IsKept obj v = go (push_last obj v.blocks) (push_last-KeptChain obj v.blocks)
    where
      go :
          (o : Option (List (Block A)))
          → KeptChain v.blocks o
          → IsKeptIfSome v.blocks (Option.map (λ bs. record { blocks = bs }) o)
      go none k = tt
      go (some cs) k = k

  -- A chain with a new empty block at its end.
  reserved-valid :
      (n : Block A) (bs : List (Block A))
      → n.elems ≡ []
      → All (λ b. AreApart w b n) bs
      → AreValid w bs
      → AreValid w (bs ++ n ∷ [])
  reserved-valid n [] e a v = ((rw e (omega arith), tt), tt)
  reserved-valid n (b ∷ bs) e a v = (
    (v.0.0, All-append (AreApart w b) bs (n ∷ []) v.0.1 (a.0, tt)),
    reserved-valid n bs e a.1 v.1,
  )

  reserved-address :
      (n : Block A) (bs : List (Block A)) (i : ℕ)
      → i < size_of bs
      → address_from w i (bs ++ n ∷ []) ≡ address_from w i bs
  unfolding size_of size
  reserved-address n [] i l = absurd (omega (arith, l))
  reserved-address n (b ∷ bs) i l = elim (Bool-cases (ltb i (length b.elems))) [
    | inl t ↦ address_here w b (bs ++ n ∷ []) i t ∙ sym (address_here w b bs i t)
    | inr t ↦
        address_later w b (bs ++ n ∷ []) i t
        ∙ reserved-address n bs (i - length b.elems) (ground arith)
        ∙ sym (address_later w b bs i t)
  ]

  push_last-some :
      (obj : A) (bs : List (Block A)) (n : Block A)
      → full n ≡ false
      → push_last obj (bs ++ n ∷ []) ≢ none
  unfolding push_last
  push_last-some obj [] n h e = cc (rw h at e)
  push_last-some obj (b ∷ []) n h e = map-some _ (push_last-some obj [] n h) e
  push_last-some obj (b ∷ c ∷ bs) n h e = map-some _ (push_last-some obj (c ∷ bs) n h) e

  -- reserve, if malloc gives memory that lies apart from all blocks, succeeds, keeps the blocks valid and moves no
  -- element. Behind the blocks that there were is an empty one of the capacity asked for, in that memory, and if
  -- that is not 0 the next push_back does not fail.
  pub reserve-AreValid :
      (data_ nelem : ℕ) (v : BlockVector A)
      → AreValid w v.blocks
      → All (λ b. AreApart w b (record { base = data_; capacity = nelem; elems = [] })) v.blocks
      → (v' : BlockVector A) × (reserve (some data_) nelem v ≡ some v')
        × AreValid w v'.blocks
        × ((i : ℕ) → i < size_of v.blocks → address_from w i v'.blocks ≡ address_from w i v.blocks)
        × (v'.blocks ≡ v.blocks ++ record { base = data_; capacity = nelem; elems = [] } ∷ [])
        × ((obj : A) → (nelem ≡ 0) ⊎ (push_back obj v' ≢ none))
  unfolding reserve push_back full size
  reserve-AreValid data_ nelem v h a = (
    _,
    refl,
    reserved-valid _ v.blocks refl a h,
    (λ i l. reserved-address _ v.blocks i l),
    refl,
    λ obj. elim (Bool-cases (nelem == 0)) [
      | inl e ↦ inl ((==_iff nelem 0).0 e)
      | inr e ↦ inr (map-some _ (push_last-some obj v.blocks _ (ground arith)))
    ],
  )
