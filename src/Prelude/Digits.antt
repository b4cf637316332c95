-- ===== src/Prelude/Digits.antt =====
-- Bit operations on numbers of any size, from their digits: `&` with a mask of low ones, and `|` of
-- numbers that share no digit.
use Prim.Native.Nat.{
  ℕ, zero, suc, ◌+◌, ◌*◌, ◌/◌, ◌%◌, ◌≤◌, min, max, digits, bit_and, bit_or, bit_and-bitwise,
  bit_or-bitwise,
}
use mathlib.Core.Path.{◌≡◌, refl, ◌∙◌}
use native.Mathlib.Omega.{arith}

-- The `k` lowest binary digits of a number, the number with `k` digits 1, and that number plus 1.
abbrev pub low : ℕ → ℕ → ℕ
low zero a = 0
low (suc k) a = low k (a / 2) * 2 + a % 2

abbrev pub ones : ℕ → ℕ
ones zero = 0
ones (suc k) = ones k * 2 + 1

low-zero : (k : ℕ) → low k 0 ≡ 0
low-zero zero = refl
low-zero (suc k) = omega (arith, low-zero k)

and_digits-low : (n k a : ℕ) → a ≤ n → digits (λ b. zero) min n a (ones k) ≡ low k a
and_digits-low zero k zero h = omega (arith, low-zero k)
and_digits-low zero k (suc a) h = absurd (omega arith)
and_digits-low (suc n) k zero h = omega (arith, low-zero k)
and_digits-low (suc n) zero (suc a) h =
    omega (arith, and_digits-low n zero (suc a / 2) (omega arith))
and_digits-low (suc n) (suc k) (suc a) h =
    let half : ones (suc k) / 2 ≡ ones k = omega arith in
    rw half (omega (arith, and_digits-low n k (suc a / 2) (omega arith)))

pub bit_and-ones : (k a : ℕ) → bit_and a (ones k) ≡ low k a
bit_and-ones k a = bit_and-bitwise a (ones k) ∙ and_digits-low a k a (omega arith)

or_digits-add : (n k a l : ℕ) → a ≤ n → low k a ≡ 0 → l ≤ ones k → digits (λ b. b) max n a l ≡ a + l
or_digits-add zero k zero l h c s = omega arith
or_digits-add zero k (suc a) l h c s = absurd (omega arith)
or_digits-add (suc n) k zero l h c s = omega arith
or_digits-add (suc n) zero (suc a) l h c s =
    omega (arith, or_digits-add n zero (suc a / 2) (l / 2) (omega arith) refl (omega arith))
or_digits-add (suc n) (suc k) (suc a) l h c s =
    omega (arith, or_digits-add n k (suc a / 2) (l / 2) (omega arith) (omega arith) (omega arith))

-- Where the `k` lowest digits of `a` are 0 and `l` has no more than `k` digits, `|` adds.
pub bit_or-add : (k a l : ℕ) → low k a ≡ 0 → l ≤ ones k → bit_or a l ≡ a + l
bit_or-add k a l c s = bit_or-bitwise a l ∙ or_digits-add a k a l (omega arith) c s
