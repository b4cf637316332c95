-- ===== src/Fields/Stores.antt =====
-- IStore of src/lib/schwa/dr/istore.h, which Store and BlockStore of fields.h implement.
use libschwa.Prelude.{
  ℕ, ◌≤◌, ◌+◌, ◌-◌, ◌*◌, ◌/◌, ◌<◌, ◌≡◌, refl, true, ◌&&◌, Option, none, some, ltb, ltb→lt, leb,
  if◌then◌else◌, arith, inl, inr, Bool-cases, suc,
}
use mathlib.Core.Option
use native.Mathlib.Nat.{mul-div_cancel, mul-le-mul_right, suc-mul}
use libschwa.BlockVector.{BlockVector, index_of, address_from}
use libschwa.BlockVector.Addresses.{AreValid, index_of-address_from}

-- Annotations are known by their addresses. `none` is what C++ leaves undefined, or a failed assertion.
pub record IStore : Type 0 where
  pub at_index : ℕ → Option ℕ
  pub index_of : ℕ → Option ℕ
  pub index_of-at_index : (i ptr : ℕ) → at_index i ≡ some ptr → index_of ptr ≡ some i

-- Store<T>: a vector of `nelem` annotations of `w` bytes from the address `base` on.
unfoldable pub vector_at : ℕ → ℕ → ℕ → ℕ → Option ℕ
vector_at w base nelem i = if ltb i nelem then some (base + i * w) else none

unfoldable pub vector_index : ℕ → ℕ → ℕ → ℕ → Option ℕ
vector_index w base nelem ptr =
    if leb base ptr && ltb ptr (base + nelem * w) then some ((ptr - base) / w) else none

vector_ends : (w nelem i : ℕ) → i < nelem → i * w + w ≤ nelem * w
vector_ends w nelem i h =
    let e : suc i * w ≤ nelem * w = mul-le-mul_right w (omega (arith, h)) in
    omega (arith, e, suc-mul i w)

pub vector_index-vector_at :
    (w base nelem i ptr : ℕ)
    → 0 < w
    → vector_at w base nelem i ≡ some ptr
    → vector_index w base nelem ptr ≡ some i
unfolding vector_at vector_index
vector_index-vector_at w base nelem i ptr pos e = elim (Bool-cases (ltb i nelem)) [
  | inl t ↦
      let p : base + i * w ≡ ptr = Option.some-injective _ _ (rw t at e) in
      let f : i * w + w ≤ nelem * w = vector_ends w nelem i (ltb→lt _ _ t) in
      let s : leb base ptr ≡ true = ground (arith, p) in
      let u : ltb ptr (base + nelem * w) ≡ true = ground (arith, p, f, pos) in
      let d : ptr - base ≡ i * w = omega (arith, p) in rw (s, u, d, mul-div_cancel i pos) refl
  | inr t ↦ cc (rw t at e)
]

-- A Store<T> at an address, and a BlockStore<T> over a valid BlockVector.
abbrev pub vector_store : (w base nelem : ℕ) → 0 < w → IStore
vector_store w base nelem pos = record {
  at_index = vector_at w base nelem;
  index_of = vector_index w base nelem;
  index_of-at_index = λ i ptr e. vector_index-vector_at w base nelem i ptr pos e;
}

abbrev pub block_store :
    {A : Type 0} (w : ℕ) (v : BlockVector A) → 0 < w → AreValid w v.blocks → IStore
block_store w v pos valid = record {
  at_index = λ i. address_from w i v.blocks;
  index_of = λ ptr. index_of w ptr v;
  index_of-at_index = λ i ptr e. index_of-address_from w v i ptr pos valid e;
}
