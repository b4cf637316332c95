-- ===== src/Msgpack/Read.antt =====
-- The reading functions of src/lib/schwa/msgpack/wire_impl.h, over any byte source.
-- A float or a double is its bit pattern: the code only moves the bits.
use libschwa.Prelude.{
  ℕ, ◌-◌, ◌^◌, Bool, true, false, Option, none, some, List, ◌++◌, if◌then◌else◌, ◌==◌, bit_and,
  length, replicate,
}
use libschwa.Prelude.Int.{ℤ, pos, of_word}
use libschwa.Exec.{read_exception, assertion, Exec, pure, raise, ◌>>=◌}
use libschwa.Io.Stream.{In}
use libschwa.Io.Effects.{get_byte, read_bytes, read_word}
use libschwa.Msgpack.Header
use libschwa.Msgpack.Endian.{be_value}
use libschwa.Msgpack.Enums.{
  code, WireType, fixnum_positive, fixnum_negative, map_fixed, map_16, map_32, array_fixed,
  array_16, array_32, raw_fixed, raw_16, raw_32, uint_8, uint_16, uint_32, uint_64, int_8, int_16,
  int_32, int_64,
}
use libschwa.Msgpack.Table.{header_type}

-- `h & m` for what `in.get()` returned; EOF is -1, whose bits are all set.
unfoldable pub mask : Option ℕ → ℕ → ℕ
mask none m = m
mask (some h) m = bit_and h m

-- `h == c` for a header byte `c`.
unfoldable pub is_header : Option ℕ → ℕ → Bool
is_header none c = false
is_header (some h) c = h == c

unfoldable pub read_val_int_fixed : Option ℕ → ℤ
unfolding mask
read_val_int_fixed h = of_word (2 ^ 7) (mask h 0x1F)

unfoldable pub read_val_uint_fixed : Option ℕ → ℕ
unfolding mask
read_val_uint_fixed h = mask h 0x7F

module _ {S : Type 0} {V : S → Type 0} (i : In S V) where
  -- _read_be8 to _read_be64 and read_val_uint8 to read_val_uint64, at a width of `n` bytes, on a short input too.
  unfoldable pub read_be : ℕ → Exec S ℕ
  read_be n = do bs ← read_word i n; pure (be_value bs)

  -- read_val_int8 to read_val_int64, at a width of `n` bytes, for words of `2 * h` values.
  unfoldable pub read_val_int : ℕ → ℕ → Exec S ℤ
  read_val_int n h = do w ← read_be n; pure (of_word h w)

  unfoldable pub read_nil : Exec S (Unit {0})
  read_nil = do h ← get_byte i; if is_header h Header.nil then pure tt else raise assertion

  unfoldable pub read_bool : Exec S Bool
  read_bool = do
    h ← get_byte i
    if is_header h Header.bool_true
        then pure true
        else if is_header h Header.bool_false
        then pure false
        else raise assertion

  unfoldable pub read_float : Exec S ℕ
  read_float = do h ← get_byte i; if is_header h Header.float then read_be 4 else raise assertion

  unfoldable pub read_double : Exec S ℕ
  read_double = do h ← get_byte i; if is_header h Header.double then read_be 8 else raise assertion

  unfoldable pub uint_of : WireType → Option ℕ → Exec S ℕ
  uint_of fixnum_positive h = pure (read_val_uint_fixed h)
  uint_of uint_8 h = read_be 1
  uint_of uint_16 h = read_be 2
  uint_of uint_32 h = read_be 4
  uint_of uint_64 h = read_be 8
  uint_of _ h = raise (read_exception h none)

  unfoldable pub read_uint : Exec S ℕ
  unfolding uint_of
  read_uint = do h ← get_byte i; uint_of (header_type h) h

  unfoldable pub signed : Exec S ℕ → Exec S ℤ
  signed m = do w ← m; pure (of_word (2 ^ 63) w)

  unfoldable pub int_of : WireType → Option ℕ → Exec S ℤ
  int_of fixnum_negative h = pure (read_val_int_fixed h)
  int_of fixnum_positive h = pure (pos (read_val_uint_fixed h))
  int_of int_8 h = read_val_int 1 (2 ^ 7)
  int_of int_16 h = read_val_int 2 (2 ^ 15)
  int_of int_32 h = read_val_int 4 (2 ^ 31)
  int_of int_64 h = read_val_int 8 (2 ^ 63)
  int_of uint_8 h = signed (read_be 1)
  int_of uint_16 h = signed (read_be 2)
  int_of uint_32 h = signed (read_be 4)
  int_of uint_64 h = signed (read_be 8)
  int_of _ h = raise (read_exception h none)

  unfoldable pub read_int : Exec S ℤ
  unfolding int_of
  read_int = do h ← get_byte i; int_of (header_type h) h

  -- `if (header_type(h) != t) throw ReadException(…, h, expected);` before the rest.
  unfoldable pub checked : {A : Type 0} → WireType → Option ℕ → (Option ℕ → Exec S A) → Exec S A
  checked t expected rest = do
    h ← get_byte i
    if code (header_type h) == code t then rest h else raise (read_exception h expected)

  unfoldable pub read_int_fixed : Exec S ℤ
  unfolding checked
  read_int_fixed = checked fixnum_negative none (λ h. pure (read_val_int_fixed h))

  unfoldable pub read_uint_fixed : Exec S ℕ
  unfolding checked
  read_uint_fixed = checked fixnum_positive none (λ h. pure (read_val_uint_fixed h))

  unfoldable pub read_int8 : Exec S ℤ
  unfolding checked
  read_int8 = checked int_8 (some Header.int_8) (λ _. read_val_int 1 (2 ^ 7))

  unfoldable pub read_int16 : Exec S ℤ
  unfolding checked
  read_int16 = checked int_16 (some Header.int_16) (λ _. read_val_int 2 (2 ^ 15))

  unfoldable pub read_int32 : Exec S ℤ
  unfolding checked
  read_int32 = checked int_32 (some Header.int_32) (λ _. read_val_int 4 (2 ^ 31))

  unfoldable pub read_int64 : Exec S ℤ
  unfolding checked
  read_int64 = checked int_64 (some Header.int_64) (λ _. read_val_int 8 (2 ^ 63))

  unfoldable pub read_uint8 : Exec S ℕ
  unfolding checked
  read_uint8 = checked uint_8 (some Header.uint_8) (λ _. read_be 1)

  unfoldable pub read_uint16 : Exec S ℕ
  unfolding checked
  read_uint16 = checked uint_16 (some Header.uint_16) (λ _. read_be 2)

  unfoldable pub read_uint32 : Exec S ℕ
  unfolding checked
  read_uint32 = checked uint_32 (some Header.uint_32) (λ _. read_be 4)

  unfoldable pub read_uint64 : Exec S ℕ
  unfolding checked
  read_uint64 = checked uint_64 (some Header.uint_64) (λ _. read_be 8)

  unfoldable pub array_size_of : WireType → Option ℕ → Exec S ℕ
  array_size_of array_fixed h = pure (mask h 0x0F)
  array_size_of array_16 h = read_be 2
  array_size_of array_32 h = read_be 4
  array_size_of _ h = raise assertion

  unfoldable pub read_array_size : Exec S ℕ
  unfolding array_size_of
  read_array_size = do h ← get_byte i; array_size_of (header_type h) h

  unfoldable pub map_size_of : WireType → Option ℕ → Exec S ℕ
  map_size_of map_fixed h = pure (mask h 0x0F)
  map_size_of map_16 h = read_be 2
  map_size_of map_32 h = read_be 4
  map_size_of _ h = raise assertion

  unfoldable pub read_map_size : Exec S ℕ
  unfolding map_size_of
  read_map_size = do h ← get_byte i; map_size_of (header_type h) h

  unfoldable pub raw_size_of : WireType → Option ℕ → Exec S ℕ
  raw_size_of raw_fixed h = pure (mask h 0x1F)
  raw_size_of raw_16 h = read_be 2
  raw_size_of raw_32 h = read_be 4
  raw_size_of _ h = raise assertion

  -- The switch of read_raw on the header, up to the size.
  unfoldable pub read_raw_size : Exec S ℕ
  unfolding raw_size_of
  read_raw_size = do h ← get_byte i; raw_size_of (header_type h) h

  -- `s.resize(s32)` fills the string with zeros, and `in.read` writes over what there is.
  unfoldable pub read_raw : Exec S (List ℕ)
  read_raw = do
    s32 ← read_raw_size
    bs ← read_bytes i s32
    pure (bs ++ replicate (s32 - length bs) 0)
