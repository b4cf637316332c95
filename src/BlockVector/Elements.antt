-- ===== src/BlockVector/Elements.antt =====
-- The elements of a BlockVector (src/lib/schwa/containers/block_vector_impl.h) as one list.
use libschwa.Prelude.{
  ℕ, zero, suc, not, ◌+◌, ◌-◌, ◌<◌, ◌≤◌, ◌≡◌, refl, sym, ap, ◌∙◌, inl, inr, Bool, true, false,
  Option, none, some, List, [], ◌∷◌, ◌++◌, append_assoc, append-nil, subst, length, length-append,
  ltb, ltb→lt, get_elem?, Bool-cases, arith,
}
use mathlib.Core.Option
use libschwa.BlockVector.{
  Block, BlockVector, size, full, create, get, get_from, size_of, push_last, push_back, reserve,
}

module _ {A : Type 0} where
  abbrev pub elements_of : List (Block A) → List A
  elements_of [] = []
  elements_of (b ∷ bs) = b.elems ++ elements_of bs

  abbrev pub elements : BlockVector A → List A
  elements v = elements_of v.blocks

  -- The element at an index of a list in two parts.
  get_elem?-append_left :
      (xs ys : List A) (i : ℕ) → i < length xs → get_elem? (xs ++ ys) i ≡ get_elem? xs i
  get_elem?-append_left [] ys i h = absurd (omega (arith, h))
  get_elem?-append_left (x ∷ xs) ys zero h = refl
  get_elem?-append_left (x ∷ xs) ys (suc i) h = get_elem?-append_left xs ys i (omega (arith, h))

  get_elem?-append_right :
      (xs ys : List A) (i : ℕ)
      → length xs ≤ i
      → get_elem? (xs ++ ys) i ≡ get_elem? ys (i - length xs)
  get_elem?-append_right [] ys i h = let e : i - 0 ≡ i = omega arith in ap (get_elem? ys) (sym e)
  get_elem?-append_right (x ∷ xs) ys zero h = absurd (omega (arith, h))
  get_elem?-append_right (x ∷ xs) ys (suc i) h =
      let e : i - length xs ≡ suc i - suc (length xs) = omega arith in
      get_elem?-append_right xs ys i (omega (arith, h)) ∙ ap (get_elem? ys) e

  get_from-elements : (bs : List (Block A)) (i : ℕ) → get_from i bs ≡ get_elem? (elements_of bs) i
  unfolding get_from size
  get_from-elements [] i = refl
  get_from-elements (b ∷ bs) i = elim (Bool-cases (ltb i (length b.elems))) [
    | inl e ↦ rw e (sym (get_elem?-append_left b.elems (elements_of bs) i (ltb→lt _ _ e)))
    | inr e ↦ rw e (
        get_from-elements bs (i - length b.elems)
        ∙ sym (get_elem?-append_right b.elems (elements_of bs) i (ground arith)))
  ]

  size_of-elements : (bs : List (Block A)) → size_of bs ≡ length (elements_of bs)
  unfolding size_of size
  size_of-elements [] = refl
  size_of-elements (b ∷ bs) =
      ap (λ n. length b.elems + n) (size_of-elements bs) ∙ sym (length-append b.elems _)

  -- get finds the element at an index of the vector's elements in order, and fails just past them.
  pub get-elements : (v : BlockVector A) (i : ℕ) → get i v ≡ get_elem? (elements v) i
  unfolding get
  get-elements v i = get_from-elements v.blocks i

  -- Whether there is a last block that is not full.
  abbrev pub has_room : List (Block A) → Bool
  has_room [] = false
  has_room (b ∷ []) = not (full b)
  has_room (b ∷ c ∷ bs) = has_room (c ∷ bs)

  -- What push_back may give.
  abbrev pub IsPushed : A → List (Block A) → Option (List (Block A)) → Type 0
  IsPushed obj bs none = has_room bs ≡ false
  IsPushed obj bs (some cs) = (has_room bs ≡ true) × (elements_of cs ≡ elements_of bs ++ obj ∷ [])

  abbrev pub blocks_of : Option (BlockVector A) → Option (List (Block A))
  blocks_of none = none
  blocks_of (some v) = some v.blocks

  IsPushed-cons :
      (obj : A) (b c : Block A) (bs : List (Block A)) (o : Option (List (Block A)))
      → IsPushed obj (c ∷ bs) o
      → IsPushed obj (b ∷ c ∷ bs) (Option.map (λ cs. b ∷ cs) o)
  IsPushed-cons obj b c bs none h = h
  IsPushed-cons obj b c bs (some cs) h =
      (h.0, ap (λ t. b.elems ++ t) h.1 ∙ sym (append_assoc b.elems _ _))

  push_last-IsPushed : (obj : A) (bs : List (Block A)) → IsPushed obj bs (push_last obj bs)
  unfolding push_last create
  push_last-IsPushed obj [] = refl
  push_last-IsPushed obj (b ∷ []) = elim (Bool-cases (full b)) [
    | inl e ↦ rw e (ap not e)
    | inr e ↦ rw e (ap not e, append-nil _ ∙ ap (λ t. t ++ obj ∷ []) (sym (append-nil b.elems)))
  ]
  push_last-IsPushed obj (b ∷ c ∷ bs) =
      IsPushed-cons obj b c bs (push_last obj (c ∷ bs)) (push_last-IsPushed obj (c ∷ bs))

  -- push_back fails if there is no block or the last one is full; else it puts the object behind all
  -- elements.
  pub push_back-IsPushed :
      (obj : A) (v : BlockVector A) → IsPushed obj v.blocks (blocks_of (push_back obj v))
  unfolding push_back
  push_back-IsPushed obj v =
      subst (IsPushed obj v.blocks) (same (push_last obj v.blocks))
        (push_last-IsPushed obj v.blocks)
    where
      same :
          (o : Option (List (Block A)))
          → o ≡ blocks_of (Option.map (λ bs. record { blocks = bs }) o)
      same none = refl
      same (some bs) = refl

  -- reserve changes no element and leaves room for at least one if it is asked for any.
  elements-reserve :
      (data_ n : ℕ) (v : BlockVector A)
      → (v' : BlockVector A) × (reserve (some data_) n v ≡ some v') × (elements v' ≡ elements v)
  unfolding reserve
  elements-reserve data_ n v = (_, refl, go v.blocks)
    where
      go :
          (bs : List (Block A))
          → elements_of (bs ++ record { base = data_; capacity = n; elems = [] } ∷ [])
            ≡ elements_of bs
      go [] = refl
      go (b ∷ bs) = ap (λ t. b.elems ++ t) (go bs)
