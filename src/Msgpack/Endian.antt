-- ===== src/Msgpack/Endian.antt =====
-- Big-endian words: port::h_to_be16 .. be64_to_h of src/lib/schwa/port.h.in with the casts between
-- words and char arrays of _read_be8 .. _write_be64 in src/lib/schwa/msgpack/wire_impl.h. Whatever the
-- host's order is, the bytes in memory are most significant first.
use libschwa.Prelude.{
  subst, ℕ, zero, suc, ◌+◌, ◌*◌, ◌/◌, ◌%◌, ◌^◌, ◌<◌, ◌≡◌, refl, ◌∙◌, List, [], ◌∷◌, ◌++◌, arith,
  length, length-append, ap, ap₂, sym, All, IsByte, All-append_inv, snoc,
}
use native.Mathlib.Nat.{pow-suc}

unfoldable pub be_value_from : ℕ → List ℕ → ℕ
be_value_from acc [] = acc
be_value_from acc (b ∷ bs) = be_value_from (acc * 256 + b) bs

-- The number that the bytes of a big-endian word stand for.
unfoldable pub be_value : List ℕ → ℕ
unfolding be_value_from
be_value bs = be_value_from 0 bs

-- The `n` bytes of a big-endian word; a wider number loses its high part, as in a narrowing cast.
unfoldable pub be_bytes : ℕ → ℕ → List ℕ
be_bytes zero x = []
be_bytes (suc n) x = be_bytes n (x / 256) ++ (x % 256) ∷ []

pub length-be_bytes : (n x : ℕ) → length (be_bytes n x) ≡ n
unfolding be_bytes
length-be_bytes zero x = refl
length-be_bytes (suc n) x =
    length-append (be_bytes n (x / 256)) _ ∙ omega (arith, length-be_bytes n (x / 256))

be_value_from_last :
    (acc b : ℕ) (bs : List ℕ) → be_value_from acc (bs ++ b ∷ []) ≡ be_value_from acc bs * 256 + b
unfolding be_value_from
be_value_from_last acc b [] = refl
be_value_from_last acc b (c ∷ bs) = be_value_from_last (acc * 256 + c) b bs

pub be_value-be_bytes : (n x : ℕ) → x < 256 ^ n → be_value (be_bytes n x) ≡ x
unfolding be_value be_bytes be_value_from
be_value-be_bytes zero x h = omega arith
be_value-be_bytes (suc n) x h =
    be_value_from_last 0 (x % 256) (be_bytes n (x / 256))
    ∙ omega (arith, be_value-be_bytes n (x / 256) (omega (arith, pow-suc 256 n)))

-- The bytes of a word come back from the number that they stand for.
be_bytes-be_value_at :
    (n : ℕ) (bs : List ℕ) → length bs ≡ n → All IsByte bs → be_bytes n (be_value bs) ≡ bs
unfolding be_bytes be_value be_value_from
be_bytes-be_value_at zero [] e h = refl
be_bytes-be_value_at zero (b ∷ bs) e h = absurd (omega arith)
be_bytes-be_value_at (suc n) [] e h = absurd (omega arith)
be_bytes-be_value_at (suc n) (b ∷ bs) e h =
    let (front, last, split, len) = snoc b bs in
    let (low, byte) = All-append_inv IsByte front (last ∷ []) (subst (All IsByte) split h) in
    let v : be_value (b ∷ bs) ≡ be_value front * 256 + last =
      ap be_value split ∙ be_value_from_last 0 last front in
    let q : be_value (b ∷ bs) / 256 ≡ be_value front = omega (arith, v, byte.0) in
    let r : be_value (b ∷ bs) % 256 ≡ last = omega (arith, v, byte.0) in
    ap₂ (λ t s. t ++ s ∷ []) (ap (be_bytes n) q ∙ be_bytes-be_value_at n front (omega arith) low) r
    ∙ sym split

pub be_bytes-be_value : (bs : List ℕ) → All IsByte bs → be_bytes (length bs) (be_value bs) ≡ bs
be_bytes-be_value bs = be_bytes-be_value_at (length bs) bs refl
