-- ===== src/Msgpack/Enums.antt =====
-- src/lib/schwa/msgpack/enums.h: the wire types and the tests on them.
use libschwa.Prelude.{
  ℕ, zero, suc, ◌≡◌, refl, sym, ap, ◌∙◌, Bool, true, false, Option, none, some, [], ◌∷◌, get_or,
}

-- The enumerators TRUE and FALSE are `bool_true` and `bool_false`.
pub data WireType : Type 0 where
  fixnum_positive fixnum_negative : WireType
  map_fixed map_16 map_32 : WireType
  array_fixed array_16 array_32 : WireType
  raw_fixed raw_16 raw_32 : WireType
  nil bool_true bool_false float double : WireType
  uint_8 uint_16 uint_32 uint_64 : WireType
  int_8 int_16 int_32 int_64 : WireType
  reserved : WireType

unfoldable pub is_array : WireType → Bool
is_array array_fixed = true
is_array array_16 = true
is_array array_32 = true
is_array _ = false

unfoldable pub is_bool : WireType → Bool
is_bool bool_false = true
is_bool bool_true = true
is_bool _ = false

unfoldable pub is_double : WireType → Bool
is_double double = true
is_double _ = false

unfoldable pub is_float : WireType → Bool
is_float float = true
is_float _ = false

unfoldable pub is_map : WireType → Bool
is_map map_fixed = true
is_map map_16 = true
is_map map_32 = true
is_map _ = false

unfoldable pub is_nil : WireType → Bool
is_nil nil = true
is_nil _ = false

unfoldable pub is_raw : WireType → Bool
is_raw raw_fixed = true
is_raw raw_16 = true
is_raw raw_32 = true
is_raw _ = false

unfoldable pub is_sint : WireType → Bool
is_sint fixnum_negative = true
is_sint int_8 = true
is_sint int_16 = true
is_sint int_32 = true
is_sint int_64 = true
is_sint _ = false

unfoldable pub is_uint : WireType → Bool
is_uint fixnum_positive = true
is_uint uint_8 = true
is_uint uint_16 = true
is_uint uint_32 = true
is_uint uint_64 = true
is_uint _ = false

-- `is_uint(type) || is_int(type)`: the second test is this function again, so `none` is a call that
-- is still open when the `fuel` calls allowed have been made.
unfoldable pub is_int : ℕ → WireType → Option Bool
is_int zero type = none
is_int (suc fuel) type = elim (is_uint type) [ true ↦ some true | false ↦ is_int fuel type ]

-- The enumerators' values: `enum class WireType : uint8_t` counts from 0.
unfoldable pub code : WireType → ℕ
code fixnum_positive = 0
code fixnum_negative = 1
code map_fixed = 2
code map_16 = 3
code map_32 = 4
code array_fixed = 5
code array_16 = 6
code array_32 = 7
code raw_fixed = 8
code raw_16 = 9
code raw_32 = 10
code nil = 11
code bool_true = 12
code bool_false = 13
code float = 14
code double = 15
code uint_8 = 16
code uint_16 = 17
code uint_32 = 18
code uint_64 = 19
code int_8 = 20
code int_16 = 21
code int_32 = 22
code int_64 = 23
code reserved = 24

of_code : ℕ → WireType
of_code n =
    get_or
      (fixnum_positive ∷ fixnum_negative ∷ map_fixed ∷ map_16 ∷ map_32 ∷ array_fixed ∷ array_16
        ∷ array_32 ∷ raw_fixed ∷ raw_16 ∷ raw_32 ∷ nil ∷ bool_true ∷ bool_false ∷ float ∷ double
        ∷ uint_8 ∷ uint_16 ∷ uint_32 ∷ uint_64 ∷ int_8 ∷ int_16 ∷ int_32 ∷ int_64 ∷ [])
      n reserved

of_code-code : (t : WireType) → of_code (code t) ≡ t
unfolding of_code code
of_code-code fixnum_positive = refl
of_code-code _ = refl

pub code-injective : {t u : WireType} → code t ≡ code u → t ≡ u
code-injective {t} {u} e = sym (of_code-code t) ∙ ap of_code e ∙ of_code-code u
