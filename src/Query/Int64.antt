-- ===== src/Query/Int64.antt =====
-- The int64_t arithmetic of the operators in src/lib/schwa/dr/query.cc. Where C++ leaves the result
-- undefined there is no number.
use libschwa.Prelude.{
  ℕ, ◌+◌, ◌-◌, ◌*◌, ◌/◌, ◌%◌, ◌^◌, Bool, true, false, ◌==◌, Option, none, some, ltb, if◌then◌else◌,
}
use libschwa.Prelude.Int.{ℤ, pos, negsuc, pos_part, neg_part}

-- The integer `p - n`.
unfoldable pub difference : ℕ → ℕ → ℤ
difference p n = if ltb p n then negsuc (n - p - 1) else pos (p - n)

unfoldable pub add_ℤ : ℤ → ℤ → ℤ
unfolding difference
add_ℤ a b = difference (pos_part a + pos_part b) (neg_part a + neg_part b)

unfoldable pub sub_ℤ : ℤ → ℤ → ℤ
unfolding difference
sub_ℤ a b = difference (pos_part a + neg_part b) (neg_part a + pos_part b)

unfoldable pub mul_ℤ : ℤ → ℤ → ℤ
unfolding difference
mul_ℤ a b =
    difference (pos_part a * pos_part b + neg_part a * neg_part b)
      (pos_part a * neg_part b + neg_part a * pos_part b)

unfoldable pub magnitude : ℤ → ℕ
magnitude a = pos_part a + neg_part a

unfoldable pub is_negative : ℤ → Bool
is_negative (pos n) = false
is_negative (negsuc n) = true

-- Quotients are cut off towards 0, and a remainder has the sign of its dividend.
unfoldable pub div_ℤ : ℤ → ℤ → ℤ
unfolding difference magnitude is_negative
div_ℤ (pos n) b = if is_negative b then difference 0 (n / magnitude b) else pos (n / magnitude b)
div_ℤ (negsuc n) b =
    if is_negative b then pos ((n + 1) / magnitude b) else difference 0 ((n + 1) / magnitude b)

unfoldable pub rem_ℤ : ℤ → ℤ → ℤ
unfolding difference magnitude
rem_ℤ (pos n) b = pos (n % magnitude b)
rem_ℤ (negsuc n) b = difference 0 ((n + 1) % magnitude b)

unfoldable pub in_int64 : ℤ → Bool
in_int64 (pos n) = ltb n (2 ^ 63)
in_int64 (negsuc n) = ltb n (2 ^ 63)

unfoldable pub checked : ℤ → Option ℤ
unfolding in_int64
checked z = if in_int64 z then some z else none

-- For both `/` and `%` the quotient has to be an int64_t.
unfoldable pub checked_quotient : ℤ → ℤ → ℤ → Option ℤ
unfolding magnitude in_int64 div_ℤ
checked_quotient a b z =
    if magnitude b == 0 then none else if in_int64 (div_ℤ a b) then some z else none
