-- ===== src/Io/WriteBuffer/Places.antt =====
-- Where the blocks of a WriteBuffer lie (src/lib/schwa/io/write_buffer.cc): in bounds of their pools, and apart
-- from one another, so that what is stored in one changes no other.
use libschwa.Prelude.{
  ℕ, zero, suc, ◌+◌, ◌≤◌, ◌≡◌, ◌≢◌, ◌⊎◌, inl, inr, refl, sym, ap, subst, some, List, [], ◌∷◌, ◌++◌,
  length, length-append, max, ltb, get_elem?, All, All-append, arith, Bool-cases, ◌==◌, ==_iff,
}
use libschwa.Io.WriteBuffer.{
  Place, in_pool, external, Block, WriteBuffer, create, flush, next_block, next_pool, require_pool,
  place_block, write_zerocopy, store,
}

-- The memory of a block: where it starts and its capacity.
pub record Area : Type 0 where
  pub place : Place
  pub capacity : ℕ

unfoldable pub area : Block → Area
area b = record { place = b.place; capacity = b.capacity }

unfoldable pub areas : List Block → List Area
unfolding area
areas [] = []
areas (b ∷ bs) = area b ∷ areas bs

-- In an existing pool, and in the current one below its free end. Memory of a caller's is the caller's.
unfoldable pub IsInsideAt : List ℕ → ℕ → ℕ → Place → ℕ → Type 0
IsInsideAt pools current used (in_pool pool at) n =
    (pool ≤ current)
    × ((pool ≡ current) → at + n ≤ used)
    × ((pool_bytes : ℕ) × (get_elem? pools pool ≡ some pool_bytes) × (at + n ≤ pool_bytes))
IsInsideAt pools current used external n = Unit {0}

abbrev pub IsInside : List ℕ → ℕ → ℕ → Area → Type 0
IsInside pools current used a = IsInsideAt pools current used a.place a.capacity

-- Two blocks share no byte of a pool.
unfoldable pub AreApartAt : Place → ℕ → Place → ℕ → Type 0
AreApartAt (in_pool pool at) n (in_pool other from) m =
    (pool ≢ other) ⊎ ((at + n ≤ from) ⊎ (from + m ≤ at))
AreApartAt _ n _ m = Unit {0}

abbrev pub AreApart : Area → Area → Type 0
AreApart a b = AreApartAt a.place a.capacity b.place b.capacity

-- Each one apart from those behind it.
unfoldable pub AllApart : List Area → Type 0
AllApart [] = Unit {0}
AllApart (a ∷ rest) = All (AreApart a) rest × AllApart rest

pub record ArePlaced (w : WriteBuffer) : Type 0 where
  pub counted : length w.pools ≡ w.current_pool + 1
  pub pool :
      (pool_bytes : ℕ) × (get_elem? w.pools w.current_pool ≡ some pool_bytes)
      × (w.pool_size ≤ pool_bytes)
  pub inside :
      All (IsInside w.pools w.current_pool w.pool_used) (areas w.blocks ++ area w.last ∷ [])
  pub apart : AllApart (areas w.blocks ++ area w.last ∷ [])

pub areas-append : (bs cs : List Block) → areas (bs ++ cs) ≡ areas bs ++ areas cs
unfolding areas
areas-append [] cs = refl
areas-append (b ∷ bs) cs = ap (λ t. area b ∷ t) (areas-append bs cs)

get-front : (xs ys : List ℕ) (i x : ℕ) → get_elem? xs i ≡ some x → get_elem? (xs ++ ys) i ≡ some x
get-front [] ys i x e = absurd (cc e)
get-front (z ∷ xs) ys zero x e = e
get-front (z ∷ xs) ys (suc i) x e = get-front xs ys i x e

get-last : (xs : List ℕ) (x i : ℕ) → i ≡ length xs → get_elem? (xs ++ x ∷ []) i ≡ some x
get-last [] x i e = rw e refl
get-last (y ∷ xs) x zero e = absurd (omega (arith, e))
get-last (y ∷ xs) x (suc i) e = get-last xs x i (omega (arith, e))

-- A new pool keeps what is inside, and nothing lies in it.
IsInside-new :
    (pools : List ℕ) (current used size : ℕ) (place : Place) (n : ℕ)
    → IsInsideAt pools current used place n
    → IsInsideAt (pools ++ size ∷ []) (current + 1) 0 place n
unfolding IsInsideAt
IsInside-new pools current used size (in_pool pool at) n (p, q, (bytes, e, l)) = (
  omega (arith, p),
  (λ same. absurd (omega (arith, p, same))),
  (bytes, get-front pools (size ∷ []) pool bytes e, l),
)
IsInside-new pools current used size external n h = tt

-- A block at the free end of the current pool moves that end.
IsInside-grown :
    (pools : List ℕ) (current used more : ℕ) (place : Place) (n : ℕ)
    → IsInsideAt pools current used place n
    → IsInsideAt pools current (used + more) place n
unfolding IsInsideAt
IsInside-grown pools current used more (in_pool pool at) n (p, q, (bytes, e, l)) =
    (p, (λ same. omega (arith, q same)), (bytes, e, l))
IsInside-grown pools current used more external n h = tt

AreApart-new :
    (pools : List ℕ) (current used : ℕ) (place : Place) (n m : ℕ)
    → IsInsideAt pools current used place n
    → AreApartAt place n (in_pool current used) m
unfolding IsInsideAt AreApartAt
AreApart-new pools current used (in_pool pool at) n m (p, q, (bytes, e, l)) =
    elim (Bool-cases (pool == current)) [
      | inl same ↦ inr (inl (q ((==_iff pool current).0 same)))
      | inr other ↦ inl (ground arith)
    ]
AreApart-new pools current used external n m h = tt

AllApart-append :
    (as_ : List Area) (b : Area)
    → All (λ a. AreApart a b) as_
    → AllApart as_
    → AllApart (as_ ++ b ∷ [])
unfolding AllApart
AllApart-append [] b h k = (tt, tt)
AllApart-append (a ∷ rest) b h k =
    (All-append (AreApart a) rest (b ∷ []) k.0 (h.0, tt), AllApart-append rest b h.1 k.1)

All-imp :
    {A : Type 0} {P Q : A → Type 0} → ((a : A) → P a → Q a) → (xs : List A) → All P xs → All Q xs
All-imp f [] h = tt
All-imp f (x ∷ xs) h = (f x h.0, All-imp f xs h.1)

-- The last block is behind `_current_block` already: the blocks lie as they should.
record AreSpread (u : WriteBuffer) : Type 0 where
  pub counted : length u.pools ≡ u.current_pool + 1
  pub pool :
      (pool_bytes : ℕ) × (get_elem? u.pools u.current_pool ≡ some pool_bytes)
      × (u.pool_size ≤ pool_bytes)
  pub inside : All (IsInside u.pools u.current_pool u.pool_used) (areas u.blocks)
  pub apart : AllApart (areas u.blocks)

-- At the free end of the current pool are `n` bytes.
HasRoom : ℕ → WriteBuffer → Type 0
HasRoom n u =
    (pool_bytes : ℕ) × (get_elem? u.pools u.current_pool ≡ some pool_bytes)
    × (u.pool_used + n ≤ pool_bytes)

next_block-AreSpread : (w : WriteBuffer) → ArePlaced w → AreSpread (next_block (flush w))
unfolding next_block flush areas area
next_block-AreSpread w h =
    let e = areas-append w.blocks (record w.last { size = w.lb_size } ∷ []) in
    record {
      counted = h.counted;
      pool = h.pool;
      inside = subst (All (IsInside w.pools w.current_pool w.pool_used)) (sym e) h.inside;
      apart = subst AllApart (sym e) h.apart;
    }

next_pool-AreSpread :
    (n : ℕ) (u : WriteBuffer) → AreSpread u → AreSpread (next_pool n u) × HasRoom n (next_pool n u)
unfolding next_pool HasRoom
next_pool-AreSpread n u h =
    let new = get-last u.pools (max u.pool_size n) (u.current_pool + 1) (sym h.counted) in
    (
      record {
        counted = omega (arith, h.counted, length-append u.pools (max u.pool_size n ∷ []));
        pool = (max u.pool_size n, new, omega arith);
        inside =
            All-imp
              (λ a.
                IsInside-new u.pools u.current_pool u.pool_used (max u.pool_size n) a.place
                  a.capacity)
              (areas u.blocks) h.inside;
        apart = h.apart;
      },
      (max u.pool_size n, new, omega arith),
    )

require_pool-AreSpread :
    (n : ℕ) (u : WriteBuffer)
    → AreSpread u
    → AreSpread (require_pool n u) × HasRoom n (require_pool n u)
unfolding require_pool HasRoom
require_pool-AreSpread n u h = elim (Bool-cases (ltb u.pool_size (u.pool_used + n))) [
  | inl e ↦ rw e (next_pool-AreSpread n u h)
  | inr e ↦
      let (bytes, here, large) = h.pool in
      let room : u.pool_used + n ≤ bytes = ground (arith, large) in rw e (h, (bytes, here, room))
]

place_block-ArePlaced :
    (n : ℕ) (u : WriteBuffer) → AreSpread u → HasRoom n u → ArePlaced (place_block n u)
unfolding place_block area HasRoom IsInsideAt
place_block-ArePlaced n u h (bytes, here, room) = record {
  counted = h.counted;
  pool = h.pool;
  inside =
      All-append (IsInside u.pools u.current_pool (u.pool_used + n)) (areas u.blocks) _
        (All-imp (λ a. IsInside-grown u.pools u.current_pool u.pool_used n a.place a.capacity)
          (areas u.blocks) h.inside)
        ((omega arith, (λ same. omega arith), (bytes, here, room)), tt);
  apart =
      AllApart-append (areas u.blocks) _
        (All-imp (λ a. AreApart-new u.pools u.current_pool u.pool_used a.place a.capacity n)
          (areas u.blocks) h.inside)
        h.apart;
}

pub open_block-ArePlaced :
    (n : ℕ) (w : WriteBuffer)
    → ArePlaced w
    → ArePlaced (place_block n (require_pool n (next_block (flush w))))
open_block-ArePlaced n w h =
    let (spread, room) = require_pool-AreSpread n _ (next_block-AreSpread w h) in
    place_block-ArePlaced n (require_pool n (next_block (flush w))) spread room

pub create-ArePlaced :
    (block_size nblocks pool_size npools : ℕ)
    → block_size ≤ pool_size
    → ArePlaced (create block_size nblocks pool_size npools)
unfolding create area areas IsInsideAt AllApart
create-ArePlaced block_size nblocks pool_size npools h = record {
  counted = omega arith;
  pool = (pool_size, refl, omega arith);
  inside = ((omega arith, (λ same. omega arith), (pool_size, refl, omega (arith, h))), tt);
  apart = (tt, tt);
}

AreApart-external : (place : Place) (n m : ℕ) → AreApartAt place n external m
unfolding AreApartAt
AreApart-external (in_pool pool at) n m = tt
AreApart-external external n m = tt

pub write_zerocopy-ArePlaced :
    (bs : List ℕ) (w : WriteBuffer) → ArePlaced w → ArePlaced (write_zerocopy bs w)
unfolding write_zerocopy next_block flush area IsInsideAt
write_zerocopy-ArePlaced bs w h =
    let u = next_block-AreSpread w h in
    record {
      counted = u.counted;
      pool = u.pool;
      inside = All-append (IsInside w.pools w.current_pool w.pool_used) _ _ u.inside (tt, tt);
      apart =
          AllApart-append _ _
            (All-imp {P = IsInside w.pools w.current_pool w.pool_used}
              (λ a i. AreApart-external a.place a.capacity (length bs)) _ u.inside)
            u.apart;
    }

-- What is stored in the last block moves none.
pub store-ArePlaced : (bs : List ℕ) (w : WriteBuffer) → ArePlaced w → ArePlaced (store bs w)
unfolding store area
store-ArePlaced bs w h = record {
  counted = h.counted;
  pool = h.pool;
  inside = h.inside;
  apart = h.apart;
}
