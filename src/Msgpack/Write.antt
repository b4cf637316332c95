-- ===== src/Msgpack/Write.antt =====
-- The writing functions of src/lib/schwa/msgpack/wire_impl.h, over any byte sink.
-- A float or a double is its bit pattern: the code only moves the bits.
use libschwa.Prelude.{
  ◌*◌, ◌^◌, ℕ, ◌-◌, Bool, ◌&&◌, List, leb, if◌then◌else◌, bit_and, bit_or, length,
}
use libschwa.Prelude.Int.{ℤ, pos, negsuc, leb_ℤ, to_word}
use libschwa.Io.Stream.{Out}
use libschwa.Msgpack.Header
use libschwa.Msgpack.Endian.{be_bytes}

-- `lo <= x && x <= hi`
abbrev pub in_range : ℤ → ℤ → ℤ → Bool
in_range lo hi x = leb_ℤ lo x && leb_ℤ x hi

module _ {S : Type 0} {V : S → Type 0} (o : Out S V) where
  -- _write_be8 to _write_be64 and write_raw_uint8 to write_raw_int64, at a width of `n` bytes. A
  -- signed argument is given by its pattern.
  unfoldable pub write_be : ℕ → ℕ → S → S
  write_be n x = o.write (be_bytes n x)

  unfoldable pub write_uint_fixed : ℕ → S → S
  write_uint_fixed x = write_be 1 (bit_and x 0x7F)

  unfoldable pub write_uint8 : ℕ → S → S
  write_uint8 x s = write_be 1 x (o.put Header.uint_8 s)

  unfoldable pub write_uint16 : ℕ → S → S
  write_uint16 x s = write_be 2 x (o.put Header.uint_16 s)

  unfoldable pub write_uint32 : ℕ → S → S
  write_uint32 x s = write_be 4 x (o.put Header.uint_32 s)

  unfoldable pub write_uint64 : ℕ → S → S
  write_uint64 x s = write_be 8 x (o.put Header.uint_64 s)

  -- `~` of the promoted byte has the byte's complement as its low eight bits.
  unfoldable pub write_int_fixed : ℤ → S → S
  write_int_fixed x = write_be 1 (bit_and (255 - to_word 256 x) 0xE0)

  unfoldable pub write_int8 : ℤ → S → S
  write_int8 x s = write_be 1 (to_word (2 * 2 ^ 7) x) (o.put Header.int_8 s)

  unfoldable pub write_int16 : ℤ → S → S
  write_int16 x s = write_be 2 (to_word (2 * 2 ^ 15) x) (o.put Header.int_16 s)

  unfoldable pub write_int32 : ℤ → S → S
  write_int32 x s = write_be 4 (to_word (2 * 2 ^ 31) x) (o.put Header.int_32 s)

  unfoldable pub write_int64 : ℤ → S → S
  write_int64 x s = write_be 8 (to_word (2 * 2 ^ 63) x) (o.put Header.int_64 s)

  unfoldable pub write_array_16 : ℕ → S → S
  write_array_16 size s = write_be 2 size (o.put Header.array_16 s)

  unfoldable pub write_array_32 : ℕ → S → S
  write_array_32 size s = write_be 4 size (o.put Header.array_32 s)

  unfoldable pub write_array_size : ℕ → S → S
  write_array_size size =
      if leb size 15
      then o.put (bit_or Header.array_fixed size)
      else if leb size 0xffff
      then write_array_16 size
      else write_array_32 size

  unfoldable pub write_map_16 : ℕ → S → S
  write_map_16 size s = write_be 2 size (o.put Header.map_16 s)

  unfoldable pub write_map_32 : ℕ → S → S
  write_map_32 size s = write_be 4 size (o.put Header.map_32 s)

  unfoldable pub write_map_size : ℕ → S → S
  write_map_size size =
      if leb size 15
      then o.put (bit_or Header.map_fixed size)
      else if leb size 0xffff
      then write_map_16 size
      else write_map_32 size

  unfoldable pub write_nil : S → S
  write_nil = o.put Header.nil

  unfoldable pub write_bool : Bool → S → S
  write_bool x = o.put (if x then Header.bool_true else Header.bool_false)

  unfoldable pub write_uint : ℕ → S → S
  write_uint x =
      if leb x 127
      then write_uint_fixed x
      else if leb x 0xff
      then write_uint8 x
      else if leb x 0xffff
      then write_uint16 x
      else if leb x 0xffff_ffff
      then write_uint32 x
      else write_uint64 x

  unfoldable pub write_int : ℤ → S → S
  write_int x =
      if in_range (negsuc 31) (negsuc 0) x
      then write_int_fixed x
      else if in_range (pos 0) (pos 127) x
      then write_uint_fixed (to_word 256 x)
      else if in_range (negsuc (2 ^ 7 - 1)) (pos (2 ^ 7 - 1)) x
      then write_int8 x
      else if in_range (negsuc (2 ^ 15 - 1)) (pos (2 ^ 15 - 1)) x
      then write_int16 x
      else if in_range (negsuc (2 ^ 31 - 1)) (pos (2 ^ 31 - 1)) x
      then write_int32 x
      else write_int64 x

  unfoldable pub write_float : ℕ → S → S
  write_float x s = write_be 4 x (o.put Header.float s)

  unfoldable pub write_double : ℕ → S → S
  write_double x s = write_be 8 x (o.put Header.double s)

  unfoldable pub write_raw_16 : ℕ → S → S
  write_raw_16 size s = write_be 2 size (o.put Header.raw_16 s)

  unfoldable pub write_raw_32 : ℕ → S → S
  write_raw_32 size s = write_be 4 size (o.put Header.raw_32 s)

  unfoldable pub write_raw_size : ℕ → S → S
  write_raw_size size =
      if leb size 31
      then o.put (bit_or Header.raw_fixed size)
      else if leb size 0xffff
      then write_raw_16 size
      else write_raw_32 size

  unfoldable pub write_raw : List ℕ → S → S
  write_raw bs s = o.write_zerocopy bs (write_raw_size (length bs) s)
