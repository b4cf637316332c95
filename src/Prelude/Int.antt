-- ===== src/Prelude/Int.antt =====
-- Signed integers over the native numbers, and the two's complement patterns of C++'s intN_t.
use Prim.Native.Nat.{ℕ, suc, ◌+◌, ◌-◌, ◌*◌, ◌%◌, ◌<◌}
use mathlib.Core.Path.{◌≡◌}
use mathlib.Core.Bool.{Bool}
use native.Mathlib.Nat.{mod-eq_of_lt}
use native.Mathlib.Omega.{arith}
use libschwa.Prelude.Tests.{ltb, leb, if◌then◌else◌}

-- `negsuc n` is -(n + 1).
pub data ℤ : Type 0 where
  pos : ℕ → ℤ
  negsuc : ℕ → ℤ

abbrev pub pos_part : ℤ → ℕ
pos_part (pos n) = n
pos_part (negsuc n) = 0

abbrev pub neg_part : ℤ → ℕ
neg_part (pos n) = 0
neg_part (negsuc n) = suc n

abbrev pub leb_ℤ : ℤ → ℤ → Bool
leb_ℤ a b = leb (pos_part a + neg_part b) (pos_part b + neg_part a)

-- The pattern of an integer in a word of `m` values, `static_cast` to that width.
abbrev pub to_word : ℕ → ℤ → ℕ
to_word m (pos n) = n % m
to_word m (negsuc n) = m - 1 - n % m

-- The integer that a pattern of a word of `2 * h` values stands for.
abbrev pub of_word : ℕ → ℕ → ℤ
of_word h w = if ltb w h then pos w else negsuc (2 * h - 1 - w)

-- The range of a signed word of `2 * h` values.
abbrev pub IsSigned : ℕ → ℤ → Type 0
IsSigned h (pos n) = n < h
IsSigned h (negsuc n) = n < h

pub of_word-to_word : (h : ℕ) (z : ℤ) → IsSigned h z → of_word h (to_word (2 * h) z) ≡ z
of_word-to_word h (pos n) r = let e : n % (2 * h) ≡ n = mod-eq_of_lt (omega arith) in ground arith
of_word-to_word h (negsuc n) r =
    let e : n % (2 * h) ≡ n = mod-eq_of_lt (omega arith) in ground arith

pub to_word-lt : (m : ℕ) (z : ℤ) → 0 < m → to_word m z < m
to_word-lt m (pos n) h = omega arith
to_word-lt m (negsuc n) h = omega arith
