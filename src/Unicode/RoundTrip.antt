-- ===== src/Unicode/RoundTrip.antt =====
-- write_utf8 with read_utf8 and read_utf8_backwards (src/lib/schwa/unicode.cc).
use libschwa.Prelude.{
  ℕ, ◌+◌, ◌*◌, ◌/◌, ◌%◌, ◌≤◌, ◌<◌, ◌^◌, ◌≡◌, ◌∙◌, bit_or, arith, List, [], ◌∷◌, ◌++◌, reverse,
}
use native.Mathlib.Decide.{dec_lt}
use libschwa.Exec.{ok}
use libschwa.Unicode.Masks.{
  top_1, top_2, top_3, top_4, top_5, low_3, low_4, low_5, low_6, low_7, join_6, join_12, join_18,
  or_0x80, or_0xC0, or_0xE0, or_0xF0,
}
use libschwa.Unicode.Utf8.{read_utf8, read_utf8_backwards, write_utf8}

join_three : (c : ℕ) → bit_or (bit_or (c / 4096 * 2 ^ 12) (c / 64 % 64 * 2 ^ 6)) (c % 64) ≡ c
join_three c =
    let inner : bit_or (c / 4096 * 2 ^ 12) (c / 64 % 64 * 2 ^ 6) ≡ c / 64 * 64 =
      join_12 (c / 4096) (c / 64 % 64) (omega arith) ∙ omega arith in
    rw inner (join_6 (c / 64) (c % 64) (omega arith) ∙ omega arith)

join_four :
    (c : ℕ)
    → bit_or
        (bit_or (bit_or (c / 262144 * 2 ^ 18) (c / 4096 % 64 * 2 ^ 12)) (c / 64 % 64 * 2 ^ 6))
        (c % 64)
      ≡ c
join_four c =
    let outer : bit_or (c / 262144 * 2 ^ 18) (c / 4096 % 64 * 2 ^ 12) ≡ c / 4096 * 2 ^ 12 =
      join_18 (c / 262144) (c / 4096 % 64) (omega arith) ∙ omega arith in
    rw outer (join_three c)

-- The bytes of a code point of one to four bytes, in plain arithmetic.
module _ (c : ℕ) where
  abbrev one : List ℕ
  one = c ∷ []

  abbrev two : List ℕ
  two = (0xC0 + c / 64) ∷ (0x80 + c % 64) ∷ []

  abbrev three : List ℕ
  three = (0xE0 + c / 4096) ∷ (0x80 + c / 64 % 64) ∷ (0x80 + c % 64) ∷ []

  abbrev four : List ℕ
  four = (0xF0 + c / 262144) ∷ (0x80 + c / 4096 % 64) ∷ (0x80 + c / 64 % 64) ∷ (0x80 + c % 64) ∷ []

  write_one : c < 0x80 → write_utf8 c ≡ ok one
  unfolding write_utf8
  write_one h = ground (arith, low_7 c)

  write_two : 0x80 ≤ c → c < 0x800 → write_utf8 c ≡ ok two
  unfolding write_utf8
  write_two l h =
      ground (arith, low_5 (c / 2 ^ 6), low_6 (c / 2 ^ 0), or_0xC0 (c / 64), or_0x80 (c % 64))

  write_three : 0x800 ≤ c → c < 0x10000 → write_utf8 c ≡ ok three
  unfolding write_utf8
  write_three l h = ground (
    arith,
    low_4 (c / 2 ^ 12),
    low_6 (c / 2 ^ 6),
    low_6 (c / 2 ^ 0),
    or_0xE0 (c / 4096),
    or_0x80 (c / 64 % 64),
    or_0x80 (c % 64),
  )

  write_four : 0x10000 ≤ c → c < 0x200000 → write_utf8 c ≡ ok four
  unfolding write_utf8
  write_four l h = ground (
    arith,
    low_3 (c / 2 ^ 18),
    low_6 (c / 2 ^ 12),
    low_6 (c / 2 ^ 6),
    low_6 (c / 2 ^ 0),
    or_0xF0 (c / 262144),
    or_0x80 (c / 4096 % 64),
    or_0x80 (c / 64 % 64),
    or_0x80 (c % 64),
  )

  module _ (rest : List ℕ) where
    read_one : c < 0x80 → read_utf8 (one ++ rest) ≡ ok (c, rest)
    unfolding read_utf8
    read_one h = ground (arith, top_1 c, low_7 c)

    read_two : c < 0x800 → read_utf8 (two ++ rest) ≡ ok (c, rest)
    unfolding read_utf8
    read_two h = ground (
      arith,
      top_1 (0xC0 + c / 64),
      top_3 (0xC0 + c / 64),
      top_2 (0x80 + c % 64),
      low_5 (0xC0 + c / 64),
      low_6 (0x80 + c % 64),
      join_6 (c / 64) (c % 64),
    )

    read_three : c < 0x10000 → read_utf8 (three ++ rest) ≡ ok (c, rest)
    unfolding read_utf8
    read_three h = ground (
      arith,
      top_1 (0xE0 + c / 4096),
      top_3 (0xE0 + c / 4096),
      top_4 (0xE0 + c / 4096),
      top_2 (0x80 + c / 64 % 64),
      top_2 (0x80 + c % 64),
      low_4 (0xE0 + c / 4096),
      low_6 (0x80 + c / 64 % 64),
      low_6 (0x80 + c % 64),
      join_6 (c / 4096 * 64) (c / 64 % 64),
      join_6 (c / 64) (c % 64),
      join_three c,
    )

    read_four : c < 0x200000 → read_utf8 (four ++ rest) ≡ ok (c, rest)
    unfolding read_utf8
    read_four h = ground (
      arith,
      top_1 (0xF0 + c / 262144),
      top_3 (0xF0 + c / 262144),
      top_4 (0xF0 + c / 262144),
      top_5 (0xF0 + c / 262144),
      top_2 (0x80 + c / 4096 % 64),
      top_2 (0x80 + c / 64 % 64),
      top_2 (0x80 + c % 64),
      low_3 (0xF0 + c / 262144),
      low_6 (0x80 + c / 4096 % 64),
      low_6 (0x80 + c / 64 % 64),
      low_6 (0x80 + c % 64),
      join_four c,
    )

    back_one : c < 0x80 → read_utf8_backwards (one ++ rest) ≡ ok (c, rest)
    unfolding read_utf8_backwards
    back_one h = ground (arith, top_1 c, low_7 c)

    back_two : c < 0x800 → read_utf8_backwards (reverse two ++ rest) ≡ ok (c, rest)
    unfolding read_utf8_backwards
    back_two h = ground (
      arith,
      top_1 (0x80 + c % 64),
      top_3 (0xC0 + c / 64),
      top_2 (0x80 + c % 64),
      low_5 (0xC0 + c / 64),
      low_6 (0x80 + c % 64),
      join_6 (c / 64) (c % 64),
    )

    back_three : c < 0x10000 → read_utf8_backwards (reverse three ++ rest) ≡ ok (c, rest)
    unfolding read_utf8_backwards
    back_three h = ground (
      arith,
      top_1 (0x80 + c % 64),
      top_3 (0x80 + c / 64 % 64),
      top_4 (0xE0 + c / 4096),
      top_2 (0x80 + c / 64 % 64),
      top_2 (0x80 + c % 64),
      low_4 (0xE0 + c / 4096),
      low_6 (0x80 + c / 64 % 64),
      low_6 (0x80 + c % 64),
      join_three c,
    )

    back_four : c < 0x200000 → read_utf8_backwards (reverse four ++ rest) ≡ ok (c, rest)
    unfolding read_utf8_backwards
    back_four h = ground (
      arith,
      top_1 (0x80 + c % 64),
      top_3 (0x80 + c / 64 % 64),
      top_4 (0x80 + c / 4096 % 64),
      top_5 (0xF0 + c / 262144),
      top_2 (0x80 + c / 4096 % 64),
      top_2 (0x80 + c / 64 % 64),
      top_2 (0x80 + c % 64),
      low_3 (0xF0 + c / 262144),
      low_6 (0x80 + c / 4096 % 64),
      low_6 (0x80 + c / 64 % 64),
      low_6 (0x80 + c % 64),
      join_four c,
    )

-- One encoding of a code point, and that both readers take just it, from either side.
pub record RoundTrip (c : ℕ) : Type 0 where
  pub utf8 : List ℕ
  pub written : write_utf8 c ≡ ok utf8
  pub read_back : (rest : List ℕ) → read_utf8 (utf8 ++ rest) ≡ ok (c, rest)
  pub read_backwards : (rest : List ℕ) → read_utf8_backwards (reverse utf8 ++ rest) ≡ ok (c, rest)

-- Every code point below 2 ^ 21 that write_utf8 encodes is read back by read_utf8 where its bytes
-- come next, whatever follows, and by read_utf8_backwards where its bytes stand last, whatever comes
-- before; each reader takes just those bytes.
pub read_utf8-write_utf8 : (c : ℕ) → c < 0x200000 → RoundTrip c
read_utf8-write_utf8 c h = elim (dec_lt c 0x80) [
  | yes a ↦ record {
    utf8 = one c;
    written = write_one c a;
    read_back = λ r. read_one c r a;
    read_backwards = λ r. back_one c r a;
  }
  | no a ↦ elim (dec_lt c 0x800) [
    | yes b ↦ record {
      utf8 = two c;
      written = write_two c (omega arith) b;
      read_back = λ r. read_two c r b;
      read_backwards = λ r. back_two c r b;
    }
    | no b ↦ elim (dec_lt c 0x10000) [
      | yes d ↦ record {
        utf8 = three c;
        written = write_three c (omega arith) d;
        read_back = λ r. read_three c r d;
        read_backwards = λ r. back_three c r d;
      }
      | no d ↦ record {
        utf8 = four c;
        written = write_four c (omega arith) h;
        read_back = λ r. read_four c r h;
        read_backwards = λ r. back_four c r h;
      }
    ]
  ]
]
