-- ===== src/Unicode/Utf8.antt =====
-- read_utf8, read_utf8_backwards and write_utf8 of src/lib/schwa/unicode.cc.
use libschwa.Prelude.{
  ℕ, ◌*◌, ◌/◌, ◌^◌, List, [], ◌∷◌, ◌++◌, ◌&&◌, leb, ◌==◌, if◌then◌else◌, bit_and, bit_or, length,
  drop, get_or,
}
use libschwa.Exec.{value_exception, unicode_exception, Result, ok, err}

abbrev pub max_code_point : ℕ
max_code_point = 0x110000

-- `data` is what lies between `*ptr` and `end`; the result is the code point with what lies between
-- the new `*ptr` and `end`. A throw leaves `*ptr` alone.
unfoldable pub read_utf8 : List ℕ → Result (ℕ × List ℕ)
read_utf8 bytes =
    let remaining = length bytes in
    let at = λ (k : ℕ). get_or bytes k 0 in
    if remaining == 0
    then err value_exception
    else if leb 1 remaining && bit_and (at 0) 0x80 == 0
    then ok (bit_and (at 0) 0x7F, drop 1 bytes)
    else if leb 2 remaining && bit_and (at 0) 0xE0 == 0xC0 && bit_and (at 1) 0xC0 == 0x80
    then ok (bit_or (bit_and (at 0) 0x1F * 2 ^ 6) (bit_and (at 1) 0x3F), drop 2 bytes)
    else if leb 3 remaining
        && bit_and (at 0) 0xF0 == 0xE0
        && bit_and (at 1) 0xC0 == 0x80
        && bit_and (at 2) 0xC0 == 0x80
    then ok (
      bit_or (bit_or (bit_and (at 0) 0x0F * 2 ^ 12) (bit_and (at 1) 0x3F * 2 ^ 6))
          (bit_and (at 2) 0x3F),
      drop 3 bytes,
    )
    else if leb 4 remaining
        && bit_and (at 0) 0xF8 == 0xF0
        && bit_and (at 1) 0xC0 == 0x80
        && bit_and (at 2) 0xC0 == 0x80
        && bit_and (at 3) 0xC0 == 0x80
    then ok (
      bit_or
          (bit_or (bit_or (bit_and (at 0) 0x07 * 2 ^ 18) (bit_and (at 1) 0x3F * 2 ^ 12))
            (bit_and (at 2) 0x3F * 2 ^ 6))
          (bit_and (at 3) 0x3F),
      drop 4 bytes,
    )
    else err (unicode_exception max_code_point)

-- `data` is what lies between `end` and `*ptr`, the byte `data[-1]` first.
unfoldable pub read_utf8_backwards : List ℕ → Result (ℕ × List ℕ)
read_utf8_backwards bytes =
    let remaining = length bytes in
    let back = λ (k : ℕ). get_or bytes k 0 in
    if remaining == 0
    then err value_exception
    else if leb 1 remaining && bit_and (back 0) 0x80 == 0
    then ok (bit_and (back 0) 0x7F, drop 1 bytes)
    else if leb 2 remaining && bit_and (back 1) 0xE0 == 0xC0 && bit_and (back 0) 0xC0 == 0x80
    then ok (bit_or (bit_and (back 1) 0x1F * 2 ^ 6) (bit_and (back 0) 0x3F), drop 2 bytes)
    else if leb 3 remaining
        && bit_and (back 2) 0xF0 == 0xE0
        && bit_and (back 1) 0xC0 == 0x80
        && bit_and (back 0) 0xC0 == 0x80
    then ok (
      bit_or (bit_or (bit_and (back 2) 0x0F * 2 ^ 12) (bit_and (back 1) 0x3F * 2 ^ 6))
          (bit_and (back 0) 0x3F),
      drop 3 bytes,
    )
    else if leb 4 remaining
        && bit_and (back 3) 0xF8 == 0xF0
        && bit_and (back 2) 0xC0 == 0x80
        && bit_and (back 1) 0xC0 == 0x80
        && bit_and (back 0) 0xC0 == 0x80
    then ok (
      bit_or
          (bit_or (bit_or (bit_and (back 3) 0x07 * 2 ^ 18) (bit_and (back 2) 0x3F * 2 ^ 12))
            (bit_and (back 1) 0x3F * 2 ^ 6))
          (bit_and (back 0) 0x3F),
      drop 4 bytes,
    )
    else err (unicode_exception max_code_point)

-- The bytes that are stored in `utf8`; their number is the function's result.
unfoldable pub write_utf8 : ℕ → Result (List ℕ)
write_utf8 code_point =
    if leb code_point 0x007F
    then ok (bit_and code_point 0x7F ∷ [])
    else if leb code_point 0x07FF
    then ok (
        bit_or 0xC0 (bit_and (code_point / 2 ^ 6) 0x1F)
        ∷ bit_or 0x80 (bit_and (code_point / 2 ^ 0) 0x3F)
        ∷ [])
    else if leb code_point 0xFFFF
    then ok (
        bit_or 0xE0 (bit_and (code_point / 2 ^ 12) 0x0F)
        ∷ bit_or 0x80 (bit_and (code_point / 2 ^ 6) 0x3F)
        ∷ bit_or 0x80 (bit_and (code_point / 2 ^ 0) 0x3F)
        ∷ [])
    else if leb code_point 0x1FFFFF
    then ok (
        bit_or 0xF0 (bit_and (code_point / 2 ^ 18) 0x07)
        ∷ bit_or 0x80 (bit_and (code_point / 2 ^ 12) 0x3F)
        ∷ bit_or 0x80 (bit_and (code_point / 2 ^ 6) 0x3F)
        ∷ bit_or 0x80 (bit_and (code_point / 2 ^ 0) 0x3F)
        ∷ [])
    else err (unicode_exception code_point)

-- UnicodeString::to_utf8, and write_utf8 on a string.
unfoldable pub to_utf8 : List ℕ → Result (List ℕ)
to_utf8 [] = ok []
to_utf8 (c ∷ cs) = elim (write_utf8 c) [
  | err e ↦ err e
  | ok utf8 ↦ elim (to_utf8 cs) [ err e ↦ err e | ok out ↦ ok (utf8 ++ out) ]
]
