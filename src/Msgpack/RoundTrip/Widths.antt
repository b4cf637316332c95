-- ===== src/Msgpack/RoundTrip/Widths.antt =====
-- The readers of one width of src/lib/schwa/msgpack/wire_impl.h with the writers of that width.
use libschwa.Prelude.{ℕ, ◌*◌, ◌^◌, ◌<◌, refl, arith, [], ◌∷◌}
use libschwa.Prelude.Int.{ℤ, to_word, IsSigned}
use libschwa.Io.Stream.{In, Out}
use libschwa.Io.Effects.{Reads-pure}
use libschwa.Msgpack.Header
use libschwa.Msgpack.Endian.{be_bytes}
use libschwa.Msgpack.Enums.{code}
use libschwa.Msgpack.Table.{header_type}
use libschwa.Msgpack.Write.{
  write_int8, write_int16, write_int32, write_int64, write_uint_fixed, write_uint8, write_uint16,
  write_uint32, write_uint64,
}
use libschwa.Msgpack.Read.{
  read_val_uint_fixed, checked, read_int8, read_int16, read_int32, read_int64, read_uint_fixed,
  read_uint8, read_uint16, read_uint32, read_uint64,
}
use libschwa.Msgpack.Words.{Reads-be, Reads-header, Writes-word}
use libschwa.Msgpack.Trip.{Trip}
use libschwa.Msgpack.RoundTrip.Unsigned.{low_seven, fixnum_header, Writes-fixed}
use libschwa.Msgpack.RoundTrip.Signed.{Reads-int}

module _ {T : Type 0} {W : T → Type 0} (o : Out T W) {S : Type 0} {V : S → Type 0}
    (i : In S V) where
  module _ (x : ℕ) where
    pub Trip-fixed_alone : x < 128 → Trip o i (write_uint_fixed o x) (read_uint_fixed i) x
    unfolding read_uint_fixed checked read_val_uint_fixed code
    Trip-fixed_alone h = record {
      wire = x ∷ [];
      writes = Writes-fixed o i x h;
      reads = Reads-header i _ x (rw (fixnum_header x h, low_seven x h) (Reads-pure i x));
    }

    Trip-uint8_alone : x < 2 ^ 8 → Trip o i (write_uint8 o x) (read_uint8 i) x
    unfolding write_uint8 read_uint8 checked header_type code
    Trip-uint8_alone h = record {
      wire = Header.uint_8 ∷ be_bytes 1 x;
      writes = Writes-word o Header.uint_8 1 x;
      reads = Reads-header i _ Header.uint_8 (Reads-be i 1 x h);
    }

    Trip-uint16_alone : x < 2 ^ 16 → Trip o i (write_uint16 o x) (read_uint16 i) x
    unfolding write_uint16 read_uint16 checked header_type code
    Trip-uint16_alone h = record {
      wire = Header.uint_16 ∷ be_bytes 2 x;
      writes = Writes-word o Header.uint_16 2 x;
      reads = Reads-header i _ Header.uint_16 (Reads-be i 2 x h);
    }

    Trip-uint32_alone : x < 2 ^ 32 → Trip o i (write_uint32 o x) (read_uint32 i) x
    unfolding write_uint32 read_uint32 checked header_type code
    Trip-uint32_alone h = record {
      wire = Header.uint_32 ∷ be_bytes 4 x;
      writes = Writes-word o Header.uint_32 4 x;
      reads = Reads-header i _ Header.uint_32 (Reads-be i 4 x h);
    }

    Trip-uint64_alone : x < 2 ^ 64 → Trip o i (write_uint64 o x) (read_uint64 i) x
    unfolding write_uint64 read_uint64 checked header_type code
    Trip-uint64_alone h = record {
      wire = Header.uint_64 ∷ be_bytes 8 x;
      writes = Writes-word o Header.uint_64 8 x;
      reads = Reads-header i _ Header.uint_64 (Reads-be i 8 x h);
    }

  module _ (x : ℤ) where
    Trip-int8_alone : IsSigned (2 ^ 7) x → Trip o i (write_int8 o x) (read_int8 i) x
    unfolding write_int8 read_int8 checked header_type code
    Trip-int8_alone r = record {
      wire = Header.int_8 ∷ be_bytes 1 (to_word (2 * 2 ^ 7) x);
      writes = Writes-word o Header.int_8 1 _;
      reads = Reads-header i _ Header.int_8 (Reads-int i 1 (2 ^ 7) x (omega arith) refl r);
    }

    Trip-int16_alone : IsSigned (2 ^ 15) x → Trip o i (write_int16 o x) (read_int16 i) x
    unfolding write_int16 read_int16 checked header_type code
    Trip-int16_alone r = record {
      wire = Header.int_16 ∷ be_bytes 2 (to_word (2 * 2 ^ 15) x);
      writes = Writes-word o Header.int_16 2 _;
      reads = Reads-header i _ Header.int_16 (Reads-int i 2 (2 ^ 15) x (omega arith) refl r);
    }

    Trip-int32_alone : IsSigned (2 ^ 31) x → Trip o i (write_int32 o x) (read_int32 i) x
    unfolding write_int32 read_int32 checked header_type code
    Trip-int32_alone r = record {
      wire = Header.int_32 ∷ be_bytes 4 (to_word (2 * 2 ^ 31) x);
      writes = Writes-word o Header.int_32 4 _;
      reads = Reads-header i _ Header.int_32 (Reads-int i 4 (2 ^ 31) x (omega arith) refl r);
    }

    Trip-int64_alone : IsSigned (2 ^ 63) x → Trip o i (write_int64 o x) (read_int64 i) x
    unfolding write_int64 read_int64 checked header_type code
    Trip-int64_alone r = record {
      wire = Header.int_64 ∷ be_bytes 8 (to_word (2 * 2 ^ 63) x);
      writes = Writes-word o Header.int_64 8 _;
      reads = Reads-header i _ Header.int_64 (Reads-int i 8 (2 ^ 63) x (omega arith) refl r);
    }

  -- Each unsigned reader of one width reads back what the writer of that width writes for a number
  -- of that width, and takes just those bytes.
  pub read_unsigned_widths :
      (x7 x8 x16 x32 x64 : ℕ)
      → x7 < 128
      → x8 < 2 ^ 8
      → x16 < 2 ^ 16
      → x32 < 2 ^ 32
      → x64 < 2 ^ 64
      → Trip o i (write_uint_fixed o x7) (read_uint_fixed i) x7
        × Trip o i (write_uint8 o x8) (read_uint8 i) x8
        × Trip o i (write_uint16 o x16) (read_uint16 i) x16
        × Trip o i (write_uint32 o x32) (read_uint32 i) x32
        × Trip o i (write_uint64 o x64) (read_uint64 i) x64
  read_unsigned_widths x7 x8 x16 x32 x64 h7 h8 h16 h32 h64 = (
    Trip-fixed_alone x7 h7,
    Trip-uint8_alone x8 h8,
    Trip-uint16_alone x16 h16,
    Trip-uint32_alone x32 h32,
    Trip-uint64_alone x64 h64,
  )

  -- Each signed reader of one width reads back what the writer of that width writes for an integer
  -- of that width, and takes just those bytes.
  pub read_signed_widths :
      (x8 x16 x32 x64 : ℤ)
      → IsSigned (2 ^ 7) x8
      → IsSigned (2 ^ 15) x16
      → IsSigned (2 ^ 31) x32
      → IsSigned (2 ^ 63) x64
      → Trip o i (write_int8 o x8) (read_int8 i) x8
        × Trip o i (write_int16 o x16) (read_int16 i) x16
        × Trip o i (write_int32 o x32) (read_int32 i) x32
        × Trip o i (write_int64 o x64) (read_int64 i) x64
  read_signed_widths x8 x16 x32 x64 h8 h16 h32 h64 = (
    Trip-int8_alone x8 h8,
    Trip-int16_alone x16 h16,
    Trip-int32_alone x32 h32,
    Trip-int64_alone x64 h64,
  )
