-- ===== src/Unicode/Masks.antt =====
-- The masks of src/lib/schwa/unicode.cc as arithmetic.
use libschwa.Prelude.{ℕ, ◌+◌, ◌*◌, ◌/◌, ◌%◌, ◌<◌, ◌^◌, ◌^◌, ◌≡◌, refl, ◌∙◌, bit_and, bit_or, arith}
use libschwa.Prelude.Bits.{agree_below, agree_below→eq}
use libschwa.Prelude.Digits.{bit_and-ones, bit_or-add}

-- On a byte, the masks of high bits round down, and those of low bits take a remainder.
module _ (b : ℕ) (h : b < 256) where
  pub top_1 : bit_and b 0x80 ≡ b / 128 * 128
  unfolding agree_below
  top_1 = agree_below→eq (λ b. bit_and b 0x80) (λ b. b / 128 * 128) 256 refl b h

  pub top_2 : bit_and b 0xC0 ≡ b / 64 * 64
  unfolding agree_below
  top_2 = agree_below→eq (λ b. bit_and b 0xC0) (λ b. b / 64 * 64) 256 refl b h

  pub top_3 : bit_and b 0xE0 ≡ b / 32 * 32
  unfolding agree_below
  top_3 = agree_below→eq (λ b. bit_and b 0xE0) (λ b. b / 32 * 32) 256 refl b h

  pub top_4 : bit_and b 0xF0 ≡ b / 16 * 16
  unfolding agree_below
  top_4 = agree_below→eq (λ b. bit_and b 0xF0) (λ b. b / 16 * 16) 256 refl b h

  pub top_5 : bit_and b 0xF8 ≡ b / 8 * 8
  unfolding agree_below
  top_5 = agree_below→eq (λ b. bit_and b 0xF8) (λ b. b / 8 * 8) 256 refl b h

-- The masks of low bits, on a number of any size.
pub low_3 : (a : ℕ) → bit_and a 0x07 ≡ a % 8
low_3 a = bit_and-ones 3 a ∙ omega arith

pub low_4 : (a : ℕ) → bit_and a 0x0F ≡ a % 16
low_4 a = bit_and-ones 4 a ∙ omega arith

pub low_5 : (a : ℕ) → bit_and a 0x1F ≡ a % 32
low_5 a = bit_and-ones 5 a ∙ omega arith

pub low_6 : (a : ℕ) → bit_and a 0x3F ≡ a % 64
low_6 a = bit_and-ones 6 a ∙ omega arith

pub low_7 : (a : ℕ) → bit_and a 0x7F ≡ a % 128
low_7 a = bit_and-ones 7 a ∙ omega arith

-- `|` of parts that share no bit adds.
pub join_6 : (a l : ℕ) → l < 64 → bit_or (a * 64) l ≡ a * 64 + l
join_6 a l h = bit_or-add 6 (a * 64) l (omega arith) (omega arith)

pub join_12 : (a l : ℕ) → l < 64 → bit_or (a * 2 ^ 12) (l * 2 ^ 6) ≡ a * 4096 + l * 64
join_12 a l h = bit_or-add 12 (a * 2 ^ 12) (l * 2 ^ 6) (omega arith) (omega arith)

pub join_18 : (a l : ℕ) → l < 64 → bit_or (a * 2 ^ 18) (l * 2 ^ 12) ≡ a * 262144 + l * 4096
join_18 a l h = bit_or-add 18 (a * 2 ^ 18) (l * 2 ^ 12) (omega arith) (omega arith)

pub or_0x80 : (x : ℕ) → x < 64 → bit_or 0x80 x ≡ 0x80 + x
or_0x80 x h = bit_or-add 6 0x80 x refl (omega arith)

pub or_0xC0 : (x : ℕ) → x < 32 → bit_or 0xC0 x ≡ 0xC0 + x
or_0xC0 x h = bit_or-add 5 0xC0 x refl (omega arith)

pub or_0xE0 : (x : ℕ) → x < 16 → bit_or 0xE0 x ≡ 0xE0 + x
or_0xE0 x h = bit_or-add 4 0xE0 x refl (omega arith)

pub or_0xF0 : (x : ℕ) → x < 8 → bit_or 0xF0 x ≡ 0xF0 + x
or_0xF0 x h = bit_or-add 3 0xF0 x refl (omega arith)
