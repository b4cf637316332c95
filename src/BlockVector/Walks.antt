-- ===== src/BlockVector/Walks.antt =====
-- The iterators of a BlockVector (src/lib/schwa/containers/block_vector_impl.h).
use libschwa.Prelude.{
  ℕ, zero, suc, ◌+◌, ◌<◌, ◌≤◌, ◌≡◌, refl, sym, ap, subst, ◌∙◌, inl, inr, false, some, List, [], ◌∷◌,
  ◌++◌, length, ◌==◌, Bool-cases, arith, get_elem?, drop,
}
use libschwa.BlockVector.{
  Block, BlockVector, Iterator, size, skip, increment_it, iterator, begin, advance, deref, at_end,
  walk,
}
use libschwa.BlockVector.Elements.{elements_of, elements}

module _ {A : Type 0} where
  drop-all : (xs : List A) (n : ℕ) → length xs ≤ n → drop n xs ≡ []
  drop-all [] zero h = refl
  drop-all [] (suc n) h = refl
  drop-all (x ∷ xs) zero h = absurd (omega (arith, h))
  drop-all (x ∷ xs) (suc n) h = drop-all xs n (omega (arith, h))

  -- The list from an index on, by its first element.
  drop-get :
      (xs : List A) (n : ℕ)
      → n < length xs
      → (a : A) × (get_elem? xs n ≡ some a) × (drop n xs ≡ a ∷ drop (n + 1) xs)
  drop-get [] n h = absurd (omega (arith, h))
  drop-get (x ∷ xs) zero h = (x, refl, refl)
  drop-get (x ∷ xs) (suc n) h =
      let (a, g, d) = drop-get xs n (omega (arith, h)) in
      let e : suc n + 1 ≡ suc (n + 1) = omega arith in
      (a, g, d ∙ ap (λ k. a ∷ drop k (x ∷ xs)) (sym e))

  -- The elements that an iterator has still to visit, from its own on.
  abbrev ahead : List (Block A) → ℕ → List A
  ahead [] it = []
  ahead (b ∷ bs) it = drop it b.elems ++ elements_of bs

  abbrev remaining : Iterator A → List A
  remaining i = ahead i.chain i.it

  abbrev AtElement : List (Block A) → ℕ → ℕ → Type 0
  AtElement [] it end = Unit {0}
  AtElement (b ∷ bs) it end = (it < length b.elems) × (end ≡ length b.elems)

  -- The iterator stands on an element or is at the end.
  abbrev IsReady : Iterator A → Type 0
  IsReady i = AtElement i.chain i.it i.end

  skip_lem :
      (b : Block A) (bs : List (Block A)) (it : ℕ)
      → it ≤ length b.elems
      → (let i = skip (b ∷ bs) it (length b.elems) in
          IsReady i × (remaining i ≡ drop it b.elems ++ elements_of bs))
  unfolding skip size
  skip_lem b [] it h = elim (Bool-cases (it == length b.elems)) [
    | inl e ↦ rw (e, drop-all b.elems it (ground arith)) (tt, refl)
    | inr e ↦ rw e ((ground arith, refl), refl)
  ]
  skip_lem b (c ∷ bs) it h = elim (Bool-cases (it == length b.elems)) [
    | inl e ↦ rw (e, drop-all b.elems it (ground arith)) (skip_lem c bs 0 (omega arith))
    | inr e ↦ rw e ((ground arith, refl), refl)
  ]

  -- A step of an iterator that stands on an element.
  advance_lem :
      (b : Block A) (bs : List (Block A)) (it end : ℕ)
      → AtElement (b ∷ bs) it end
      → (let i = advance (record { chain = b ∷ bs; it = it; end = end }) in
          IsReady i × (remaining i ≡ drop (it + 1) b.elems ++ elements_of bs))
  unfolding advance increment_it
  advance_lem b bs it end r = rw (r.1) (skip_lem b bs (it + 1) (omega (arith, r.0)))

  -- One round of the loop.
  walk-step :
      (fuel : ℕ) (i : Iterator A) (a : A) (xs : List A)
      → at_end i ≡ false
      → deref i ≡ some a
      → walk fuel (advance i) ≡ some xs
      → walk (suc fuel) i ≡ some (a ∷ xs)
  unfolding walk
  walk-step fuel i a xs e f h = rw (e, f, h) refl

  walk-IsReady :
      (fuel : ℕ) (chain : List (Block A)) (it end : ℕ)
      → AtElement chain it end
      → length (ahead chain it) < fuel
      → walk fuel (record { chain = chain; it = it; end = end }) ≡ some (ahead chain it)
  unfolding walk at_end deref
  walk-IsReady zero chain it end r h = absurd (omega (arith, h))
  walk-IsReady (suc fuel) [] it end r h = refl
  walk-IsReady (suc fuel) (b ∷ bs) it end r h =
      let (a, g, d) = drop-get b.elems it r.0 in
      let i : Iterator A = record { chain = b ∷ bs; it = it; end = end } in
      let full : ahead (b ∷ bs) it ≡ a ∷ (drop (it + 1) b.elems ++ elements_of bs) =
        ap (λ t. t ++ elements_of bs) d in
      let next = advance_lem b bs it end r in
      let j = advance i in
      let shorter : length (remaining j) < fuel =
        omega (arith, h, ap length full, ap length next.1) in
      walk-step fuel i a (remaining j) refl g (walk-IsReady fuel j.chain j.it j.end next.0 shorter)
      ∙ ap (λ t. some (a ∷ t)) next.1
      ∙ ap some (sym full)

  iterator_lem :
      (bs : List (Block A)) → IsReady (iterator bs) × (remaining (iterator bs) ≡ elements_of bs)
  unfolding iterator increment_it size skip
  iterator_lem [] = (tt, refl)
  iterator_lem (b ∷ bs) = skip_lem b bs 0 (omega arith)

  -- The loop from begin() to end() visits every element once, in order, and ends, in one round more
  -- than there are elements.
  pub walk-begin :
      (v : BlockVector A) (fuel : ℕ)
      → length (elements v) < fuel
      → walk fuel (begin v) ≡ some (elements v)
  unfolding begin
  walk-begin v fuel h =
      let i = begin v in
      let (r, e) = iterator_lem v.blocks in
      walk-IsReady fuel i.chain i.it i.end r (subst (λ xs. length xs < fuel) (sym e) h) ∙ ap some e
