-- ===== src/Msgpack/Table.antt =====
-- The wire type of each header byte: TABLE of src/lib/schwa/msgpack/wire.cc and header_type of
-- src/lib/schwa/msgpack/wire_impl.h.
use libschwa.Prelude.{
  ℕ, ◌<◌, ◌≡◌, refl, Option, none, some, List, [], ◌∷◌, ◌++◌, arith, ltb, if◌then◌else◌, bit_and,
  replicate, get_or, Bool-cases, ltb→lt, inl, inr, ◌-◌,
}
use libschwa.Prelude.Bits.{agree_below, agree_below→eq}
use libschwa.Msgpack.Enums.{
  WireType, fixnum_positive, fixnum_negative, map_fixed, map_16, map_32, array_fixed, array_16,
  array_32, raw_fixed, raw_16, raw_32, nil, bool_true, bool_false, float, double, uint_8, uint_16,
  uint_32, uint_64, int_8, int_16, int_32, int_64, reserved, code, code-injective,
}

unfoldable pub table : List WireType
table =
    replicate 128 fixnum_positive
    ++ (replicate 16 map_fixed
        ++ (replicate 16 array_fixed
            ++ (replicate 32 raw_fixed
                ++ (nil
                    ∷ reserved
                    ∷ bool_false
                    ∷ bool_true
                    ∷ reserved
                    ∷ reserved
                    ∷ reserved
                    ∷ reserved
                    ∷ reserved
                    ∷ reserved
                    ∷ float
                    ∷ double
                    ∷ uint_8
                    ∷ uint_16
                    ∷ uint_32
                    ∷ uint_64
                    ∷ int_8
                    ∷ int_16
                    ∷ int_32
                    ∷ int_64
                    ∷ reserved
                    ∷ reserved
                    ∷ reserved
                    ∷ reserved
                    ∷ reserved
                    ∷ reserved
                    ∷ raw_16
                    ∷ raw_32
                    ∷ array_16
                    ∷ array_32
                    ∷ map_16
                    ∷ map_32
                    ∷ replicate 32 fixnum_negative))))

-- `none` is EOF, the negative number that `header < 0` sees.
unfoldable pub header_type : Option ℕ → WireType
unfolding table
header_type none = reserved
header_type (some header) =
    if ltb 255 header then reserved else get_or table (bit_and header 0xff) reserved

-- The format's assignment of header bytes, by ranges.
unfoldable pub format : ℕ → WireType
format h =
    if ltb h 0x80
    then fixnum_positive
    else if ltb h 0x90
    then map_fixed
    else if ltb h 0xa0
    then array_fixed
    else if ltb h 0xc0
    then raw_fixed
    else if ltb h 0xe0
    then get_or
        (nil ∷ reserved ∷ bool_false ∷ bool_true ∷ reserved ∷ reserved ∷ reserved ∷ reserved
          ∷ reserved ∷ reserved ∷ float ∷ double ∷ uint_8 ∷ uint_16 ∷ uint_32 ∷ uint_64 ∷ int_8
          ∷ int_16 ∷ int_32 ∷ int_64 ∷ reserved ∷ reserved ∷ reserved ∷ reserved ∷ reserved
          ∷ reserved ∷ raw_16 ∷ raw_32 ∷ array_16 ∷ array_32 ∷ map_16 ∷ map_32 ∷ [])
        (h - 0xc0) reserved
    else if ltb h 0x100
    then fixnum_negative
    else reserved

header_type-code : (h : ℕ) → h < 256 → code (header_type (some h)) ≡ code (format h)
unfolding header_type format code agree_below
header_type-code = agree_below→eq _ _ 256 refl

-- header_type gives every number, byte or not, the wire type that the format's ranges give it.
pub header_type-eq-format : (h : ℕ) → header_type (some h) ≡ format h
header_type-eq-format h = elim (Bool-cases (ltb h 256)) [
  | inl e ↦ code-injective (header_type-code h (ltb→lt h 256 e))
  | inr e ↦ unfold header_type format in ground arith
]
