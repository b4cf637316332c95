-- ===== src/Pool/Regions.antt =====
-- The regions that Pool::alloc (src/lib/schwa/pool.h) hands out.
use native.Mathlib.Nat.{mod-eq_of_lt}
use libschwa.Prelude.{
  ℕ, ◌+◌, ◌^◌, ◌%◌, ◌≤◌, ◌<◌, ◌≡◌, ◌≢◌, refl, sym, ◌∙◌, ◌⊎◌, inl, inr, Bool, true, false, Option,
  none, some, List, [], ◌∷◌, length, ltb, ap, subst, ltb→lt, ◌==◌, if◌then◌else◌, arith, All,
  Bool-cases,
}
use libschwa.Pool.{
  Block, Pool, Region, create, create_block, alloc_block, placed, push_block, alloc, alloc_from,
  used, sum_by,
}

-- The free end of the block of an index, in a list with the newest block first.
abbrev pub upto_at : ℕ → List Block → ℕ
upto_at k [] = 0
upto_at k (b ∷ bs) = if k == length bs then b.upto else upto_at k bs

abbrev pub size_at : ℕ → List Block → ℕ
size_at k [] = 0
size_at k (b ∷ bs) = if k == length bs then b.size else size_at k bs

abbrev pub IsFilled : Block → Type 0
IsFilled b = (b.upto ≤ b.size) × (b.size ≤ 2 ^ 63)

-- The regions share no byte.
abbrev pub AreDisjoint : Region → Region → Type 0
AreDisjoint r q =
    (r.block ≢ q.block) ⊎ ((r.offset + r.size ≤ q.offset) ⊎ (q.offset + q.size ≤ r.offset))

-- A region below the free end of its block.
pub record IsInside (bs : List Block) (r : Region) : Type 0 where
  pub there : r.block < length bs
  pub below : r.offset + r.size ≤ upto_at r.block bs

abbrev pub ArePairwiseDisjoint : List Region → Type 0
ArePairwiseDisjoint [] = Unit {0}
ArePairwiseDisjoint (r ∷ rs) = All (AreDisjoint r) rs × ArePairwiseDisjoint rs

pub record IsValid (rs : List Region) (p : Pool) : Type 0 where
  pub bounded : p.block_size ≤ 2 ^ 63
  pub filled : All IsFilled (p.current ∷ p.rest)
  pub inside : All (IsInside (p.current ∷ p.rest)) rs
  pub disjoint : ArePairwiseDisjoint rs

pub create-IsValid : (n : ℕ) → n ≤ 2 ^ 63 → IsValid [] (create n)
unfolding create create_block
create-IsValid n h = record {
  bounded = h;
  filled = ((omega arith, h), tt);
  inside = tt;
  disjoint = tt;
}

pub upto_at-le-size_at : (k : ℕ) (bs : List Block) → All IsFilled bs → upto_at k bs ≤ size_at k bs
upto_at-le-size_at k [] h = omega arith
upto_at-le-size_at k (b ∷ bs) h = ground (arith, upto_at-le-size_at k bs h.1)

-- A region stays inside while its block's free end moves up, and while blocks are pushed.
IsInside-grow :
    (b b' : Block) (bs : List Block) (r : Region)
    → b.upto ≤ b'.upto
    → IsInside (b ∷ bs) r
    → IsInside (b' ∷ bs) r
IsInside-grow b b' bs r h i = record { there = i.there; below = ground (arith, i.below) }

IsInside-push : (b : Block) (bs : List Block) (r : Region) → IsInside bs r → IsInside (b ∷ bs) r
IsInside-push b bs r i = record {
  there = omega (arith, i.there);
  below = ground (arith, i.below, i.there);
}

All-map {ℓ κ μ} :
    {A : Type ℓ} (P : A → Type κ) (Q : A → Type μ)
    → ((a : A) → P a → Q a)
    → (xs : List A) → All P xs
    → All Q xs
All-map P Q f [] h = tt
All-map P Q f (x ∷ xs) h = (f x h.0, All-map P Q f xs h.1)

-- The region at the free end of the newest block meets no region that is inside.
fresh_disjoint :
    (b : Block) (bs : List Block) (n : ℕ) (q : Region)
    → IsInside (b ∷ bs) q
    → AreDisjoint (record { block = length bs; offset = b.upto; size = n }) q
fresh_disjoint b bs n q i = elim (Bool-cases (q.block == length bs)) [
  | inl e ↦ inr (inr (ground (arith, i.below)))
  | inr e ↦ inl (λ x. ground arith)
]

-- What alloc may give for a request of `n` bytes: a null result only if malloc has no memory and the
-- newest block no room.
abbrev pub IsAllocated : Bool → List Region → Pool → ℕ → Option (Region × Pool) → Type 0
IsAllocated granted rs p n none = (granted ≡ false) × (p.current.size < p.current.upto + n)
IsAllocated granted rs p n (some (r, q)) =
    (IsValid (r ∷ rs) q × (r.size ≡ n)) × (used q ≡ used p + n)

alloc_block_lem :
    (n : ℕ) (b : Block)
    → IsFilled b
    → n < 2 ^ 63
    → alloc_block n b
      ≡ (if ltb b.size (b.upto + n) then none else some (b.upto, record b { upto = b.upto + n }))
unfolding alloc_block
alloc_block_lem n b h small =
    let e : (b.upto + n) % 2 ^ 64 ≡ b.upto + n = mod-eq_of_lt (omega (arith, h, small)) in rw e

-- A region at the free end of the newest block.
module _ (rs : List Region) (p : Pool) (v : IsValid rs p) (n : ℕ)
    (room : p.current.upto + n ≤ p.current.size) where
  abbrev region : Region
  region = record { block = length p.rest; offset = p.current.upto; size = n }

  abbrev filled_pool : Pool
  filled_pool = record p { current = record p.current { upto = p.current.upto + n } }

  filled-IsValid : IsValid (region ∷ rs) filled_pool
  filled-IsValid = record {
    bounded = v.bounded;
    filled = ((omega arith, v.filled.0.1), v.filled.1);
    inside = (
      record { there = omega arith; below = ground arith },
      All-map _ _ (λ q i. IsInside-grow p.current _ p.rest q (omega arith) i) rs v.inside,
    );
    disjoint = (All-map _ _ (λ q i. fresh_disjoint p.current p.rest n q i) rs v.inside, v.disjoint);
  }

  placed-IsAllocated :
      (granted : Bool)
      → IsAllocated granted rs p n
          (placed p n (some (p.current.upto, record p.current { upto = p.current.upto + n })))
  unfolding placed used sum_by
  placed-IsAllocated granted = ((filled-IsValid, refl), omega arith)

push_block-IsValid :
    (n : ℕ) (rs : List Region) (p : Pool) → n < 2 ^ 63 → IsValid rs p → IsValid rs (push_block n p)
unfolding push_block create_block
push_block-IsValid n rs p small v = record {
  bounded = v.bounded;
  filled = ((omega arith, ground (arith, v.bounded)), v.filled);
  inside = All-map _ _ (λ q i. IsInside-push _ (p.current ∷ p.rest) q i) rs v.inside;
  disjoint = v.disjoint;
}

-- alloc_block by whether there is room.
alloc_block_full :
    (n : ℕ) (b : Block) → IsFilled b → n < 2 ^ 63 → b.size < b.upto + n → alloc_block n b ≡ none
alloc_block_full n b h small full =
    let t : ltb b.size (b.upto + n) ≡ true = ground arith in
    alloc_block_lem n b h small
    ∙ ap (λ t. if t then none else some (b.upto, record b { upto = b.upto + n })) t

alloc_block_room :
    (n : ℕ) (b : Block)
    → IsFilled b
    → n < 2 ^ 63
    → b.upto + n ≤ b.size
    → alloc_block n b ≡ some (b.upto, record b { upto = b.upto + n })
alloc_block_room n b h small room =
    let t : ltb b.size (b.upto + n) ≡ false = ground arith in
    alloc_block_lem n b h small
    ∙ ap (λ t. if t then none else some (b.upto, record b { upto = b.upto + n })) t

pushed_room : (n : ℕ) (p : Pool) → (push_block n p).current.upto + n ≤ (push_block n p).current.size
unfolding push_block create_block
pushed_room n p = ground arith

pushed-used : (n : ℕ) (p : Pool) → used (push_block n p) ≡ used p
unfolding push_block create_block used sum_by
pushed-used n p = omega arith

-- What IsAllocated says of a pool when malloc has memory is its bytes in use only.
IsAllocated-used :
    (rs : List Region) (p q : Pool) (n : ℕ) (o : Option (Region × Pool))
    → used q ≡ used p
    → IsAllocated true rs q n o
    → IsAllocated true rs p n o
IsAllocated-used rs p q n none e h = cc h.0
IsAllocated-used rs p q n (some (r, p')) e h = (h.0, h.1 ∙ ap (λ t. t + n) e)

-- The new block has room for what it was made for.
pushed-IsAllocated :
    (rs : List Region) (p : Pool) (n : ℕ)
    → IsValid rs p
    → n < 2 ^ 63
    → IsAllocated true rs p n (placed (push_block n p) n (alloc_block n (push_block n p).current))
pushed-IsAllocated rs p n v small =
    let q = push_block n p in
    let w : IsValid rs q = push_block-IsValid n rs p small v in
    let e : alloc_block n q.current
        ≡ some (q.current.upto, record q.current { upto = q.current.upto + n }) =
      alloc_block_room n q.current w.filled.0 small (pushed_room n p) in
    let a : IsAllocated true rs q n (placed q n (alloc_block n q.current)) =
      subst (λ r. IsAllocated true rs q n (placed q n r)) (sym e)
        (placed-IsAllocated rs q w n (pushed_room n p) true) in
    IsAllocated-used rs p q n (placed q n (alloc_block n q.current)) (pushed-used n p) a

full-IsAllocated :
    (granted : Bool) (rs : List Region) (p : Pool) (n : ℕ)
    → IsValid rs p
    → n < 2 ^ 63
    → p.current.size < p.current.upto + n
    → IsAllocated granted rs p n (alloc_from granted n p none)
unfolding alloc_from
full-IsAllocated false rs p n v small full = (refl, full)
full-IsAllocated true rs p n v small full = pushed-IsAllocated rs p n v small

-- A request of less than 2^63 bytes, in a pool whose regions are in bounds and pairwise disjoint, gets
-- a region of its size, in bounds and disjoint from all of them, and the bytes in use grow by that
-- size; it fails only if the newest block has no room and malloc no memory.
pub alloc-IsAllocated :
    (granted : Bool) (rs : List Region) (p : Pool) (n : ℕ)
    → IsValid rs p
    → n < 2 ^ 63
    → IsAllocated granted rs p n (alloc granted n p)
unfolding alloc alloc_from
alloc-IsAllocated granted rs p n v small =
    elim (Bool-cases (ltb p.current.size (p.current.upto + n))) [
      | inl t ↦
          let full : p.current.size < p.current.upto + n = ltb→lt _ _ t in
          subst (λ r. IsAllocated granted rs p n (alloc_from granted n p r))
            (sym (alloc_block_full n p.current v.filled.0 small full))
            (full-IsAllocated granted rs p n v small full)
      | inr t ↦
          let room : p.current.upto + n ≤ p.current.size = ground arith in
          subst (λ r. IsAllocated granted rs p n (alloc_from granted n p r))
            (sym (alloc_block_room n p.current v.filled.0 small room))
            (placed-IsAllocated rs p v n room granted)
    ]
