-- ===== src/Msgpack/RoundTrip/Unsigned.antt =====
-- write_uint with read_uint (src/lib/schwa/msgpack/wire_impl.h).
use libschwa.Prelude.{ℕ, ◌^◌, ◌<◌, ◌≡◌, refl, ap, ◌∙◌, some, [], ◌∷◌, arith, leb, bit_and}
use libschwa.Prelude.Bits.{agree_below, agree_below→eq}
use libschwa.Io.Stream.{In, Out}
use libschwa.Io.Effects.{Reads-pure, Writes}
use libschwa.Msgpack.Header
use libschwa.Msgpack.Endian.{be_bytes}
use libschwa.Msgpack.Enums.{fixnum_positive}
use libschwa.Msgpack.Table.{header_type, format, header_type-eq-format}
use libschwa.Msgpack.Write.{
  write_uint_fixed, write_uint8, write_uint16, write_uint32, write_uint64, write_uint,
}
use libschwa.Msgpack.Read.{read_val_uint_fixed, read_uint}
use libschwa.Msgpack.Words.{Reads-be, Reads-header, Writes-be, Writes-word}
use libschwa.Msgpack.Trip.{Trip, Trip-if}

pub low_seven : (x : ℕ) → x < 128 → bit_and x 0x7F ≡ x
unfolding agree_below
low_seven = agree_below→eq _ _ 128 refl

pub fixnum_header : (x : ℕ) → x < 128 → header_type (some x) ≡ fixnum_positive
fixnum_header x h = header_type-eq-format x ∙ (unfold format in ground arith)

be_bytes-one : (x : ℕ) → x < 128 → be_bytes 1 x ≡ x ∷ []
unfolding be_bytes
be_bytes-one x h = ap (λ t. t ∷ []) (omega arith)

module _ {T : Type 0} {W : T → Type 0} (o : Out T W) {S : Type 0} {V : S → Type 0} (i : In S V)
    (x : ℕ) where
  pub Writes-fixed : x < 128 → Writes o (write_uint_fixed o x) (x ∷ [])
  unfolding write_uint_fixed
  Writes-fixed h = rw (low_seven x h, ← be_bytes-one x h) (Writes-be o 1 x)

  Trip-fixed : x < 128 → Trip o i (write_uint_fixed o x) (read_uint i) x
  unfolding read_uint read_val_uint_fixed
  Trip-fixed h = record {
    wire = x ∷ [];
    writes = Writes-fixed h;
    reads = Reads-header i _ x (rw (fixnum_header x h, low_seven x h) (Reads-pure i x));
  }

  Trip-uint8 : x < 2 ^ 8 → Trip o i (write_uint8 o x) (read_uint i) x
  unfolding write_uint8 read_uint header_type
  Trip-uint8 h = record {
    wire = Header.uint_8 ∷ be_bytes 1 x;
    writes = Writes-word o Header.uint_8 1 x;
    reads = Reads-header i _ Header.uint_8 (Reads-be i 1 x h);
  }

  Trip-uint16 : x < 2 ^ 16 → Trip o i (write_uint16 o x) (read_uint i) x
  unfolding write_uint16 read_uint header_type
  Trip-uint16 h = record {
    wire = Header.uint_16 ∷ be_bytes 2 x;
    writes = Writes-word o Header.uint_16 2 x;
    reads = Reads-header i _ Header.uint_16 (Reads-be i 2 x h);
  }

  Trip-uint32 : x < 2 ^ 32 → Trip o i (write_uint32 o x) (read_uint i) x
  unfolding write_uint32 read_uint header_type
  Trip-uint32 h = record {
    wire = Header.uint_32 ∷ be_bytes 4 x;
    writes = Writes-word o Header.uint_32 4 x;
    reads = Reads-header i _ Header.uint_32 (Reads-be i 4 x h);
  }

  Trip-uint64 : x < 2 ^ 64 → Trip o i (write_uint64 o x) (read_uint i) x
  unfolding write_uint64 read_uint header_type
  Trip-uint64 h = record {
    wire = Header.uint_64 ∷ be_bytes 8 x;
    writes = Writes-word o Header.uint_64 8 x;
    reads = Reads-header i _ Header.uint_64 (Reads-be i 8 x h);
  }

  -- Every uint64_t that write_uint writes to a valid sink is read back by read_uint from a valid
  -- source where those bytes come next, and read_uint takes just those bytes.
  pub read_uint-write_uint : x < 2 ^ 64 → Trip o i (write_uint o x) (read_uint i) x
  unfolding write_uint
  read_uint-write_uint h =
      Trip-if o i (leb x 127) (λ e. Trip-fixed (ground arith))
        λ _.
          Trip-if o i (leb x 0xff) (λ e. Trip-uint8 (ground arith))
            λ _.
              Trip-if o i (leb x 0xffff) (λ e. Trip-uint16 (ground arith))
                λ _.
                  Trip-if o i (leb x 0xffff_ffff) (λ e. Trip-uint32 (ground arith))
                    λ _. Trip-uint64 h
