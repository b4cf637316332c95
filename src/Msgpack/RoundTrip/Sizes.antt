-- ===== src/Msgpack/RoundTrip/Sizes.antt =====
-- The sizes of arrays, maps and raws, raws themselves, and the values of fixed length
-- (src/lib/schwa/msgpack/wire_impl.h).
use libschwa.Prelude.{
  ℕ, ◌+◌, ◌-◌, ◌^◌, ◌<◌, ◌≡◌, refl, ◌∙◌, Bool, true, false, some, List, [], ◌∷◌, ◌++◌, append-nil,
  arith, leb, bit_and, bit_or, length, replicate,
}
use libschwa.Prelude.Bits.{agree_below, agree_below→eq}
use libschwa.Exec.{pure}
use libschwa.Io.Stream.{In, Out}
use libschwa.Io.Effects.{
  Reads, Reads-pure, Reads-read, Reads-bind, Writes-put, Writes-then, Writes-zerocopy,
}
use libschwa.Msgpack.Header
use libschwa.Msgpack.Endian.{be_bytes}
use libschwa.Msgpack.Enums.{array_fixed, map_fixed, raw_fixed}
use libschwa.Msgpack.Table.{header_type, format, header_type-eq-format}
use libschwa.Msgpack.Write.{
  write_array_16, write_array_32, write_array_size, write_map_16, write_map_32, write_map_size,
  write_raw_16, write_raw_32, write_raw_size, write_raw, write_nil, write_bool, write_float,
  write_double,
}
use libschwa.Msgpack.Read.{
  mask, is_header, read_array_size, read_map_size, read_raw_size, read_raw, read_nil, read_bool,
  read_float, read_double,
}
use libschwa.Msgpack.Words.{Reads-be, Reads-header, Writes-word}
use libschwa.Msgpack.Trip.{Trip, Trip-if}

-- The bits of a small size under the header's own bits.
or_low : (n : ℕ) → n < 16 → (bit_or 0x90 n ≡ 0x90 + n) × (bit_or 0x80 n ≡ 0x80 + n)
unfolding agree_below
or_low n h = (
  agree_below→eq (λ n. bit_or 0x90 n) (λ n. 0x90 + n) 16 refl n h,
  agree_below→eq (λ n. bit_or 0x80 n) (λ n. 0x80 + n) 16 refl n h,
)

or_low_raw : (n : ℕ) → n < 32 → bit_or 0xa0 n ≡ 0xa0 + n
unfolding agree_below
or_low_raw = agree_below→eq (λ n. bit_or 0xa0 n) (λ n. 0xa0 + n) 32 refl

pub and_low : (n : ℕ) → n < 16 → (bit_and (0x90 + n) 0x0F ≡ n) × (bit_and (0x80 + n) 0x0F ≡ n)
unfolding agree_below
and_low n h = (
  agree_below→eq (λ n. bit_and (0x90 + n) 0x0F) (λ n. n) 16 refl n h,
  agree_below→eq (λ n. bit_and (0x80 + n) 0x0F) (λ n. n) 16 refl n h,
)

pub and_low_raw : (n : ℕ) → n < 32 → bit_and (0xa0 + n) 0x1F ≡ n
unfolding agree_below
and_low_raw = agree_below→eq (λ n. bit_and (0xa0 + n) 0x1F) (λ n. n) 32 refl

pub array_header : (n : ℕ) → n < 16 → header_type (some (0x90 + n)) ≡ array_fixed
array_header n h = header_type-eq-format (0x90 + n) ∙ (unfold format in ground arith)

pub map_header : (n : ℕ) → n < 16 → header_type (some (0x80 + n)) ≡ map_fixed
map_header n h = header_type-eq-format (0x80 + n) ∙ (unfold format in ground arith)

pub raw_header : (n : ℕ) → n < 32 → header_type (some (0xa0 + n)) ≡ raw_fixed
raw_header n h = header_type-eq-format (0xa0 + n) ∙ (unfold format in ground arith)

module _ {T : Type 0} {W : T → Type 0} (o : Out T W) {S : Type 0} {V : S → Type 0}
    (i : In S V) where
  module _ (n : ℕ) where
    Trip-array_fixed : n < 16 → Trip o i (o.put (bit_or Header.array_fixed n)) (read_array_size i) n
    unfolding read_array_size mask
    Trip-array_fixed h = rw ((or_low n h).0) (record {
      wire = (0x90 + n) ∷ [];
      writes = Writes-put o _;
      reads = Reads-header i _ _ (rw (array_header n h, (and_low n h).0) (Reads-pure i n));
    })

    Trip-array_16 : n < 2 ^ 16 → Trip o i (write_array_16 o n) (read_array_size i) n
    unfolding write_array_16 read_array_size header_type
    Trip-array_16 h = record {
      wire = Header.array_16 ∷ be_bytes 2 n;
      writes = Writes-word o Header.array_16 2 n;
      reads = Reads-header i _ Header.array_16 (Reads-be i 2 n h);
    }

    Trip-array_32 : n < 2 ^ 32 → Trip o i (write_array_32 o n) (read_array_size i) n
    unfolding write_array_32 read_array_size header_type
    Trip-array_32 h = record {
      wire = Header.array_32 ∷ be_bytes 4 n;
      writes = Writes-word o Header.array_32 4 n;
      reads = Reads-header i _ Header.array_32 (Reads-be i 4 n h);
    }

    -- Every array size below 2 ^ 32 that write_array_size writes is read back by read_array_size,
    -- which takes just the bytes written.
    pub read_array_size-write_array_size :
        n < 2 ^ 32 → Trip o i (write_array_size o n) (read_array_size i) n
    unfolding write_array_size
    read_array_size-write_array_size h =
        Trip-if o i (leb n 15) (λ e. Trip-array_fixed (ground arith))
          λ _. Trip-if o i (leb n 0xffff) (λ e. Trip-array_16 (ground arith)) λ _. Trip-array_32 h

    Trip-map_fixed : n < 16 → Trip o i (o.put (bit_or Header.map_fixed n)) (read_map_size i) n
    unfolding read_map_size mask
    Trip-map_fixed h = rw ((or_low n h).1) (record {
      wire = (0x80 + n) ∷ [];
      writes = Writes-put o _;
      reads = Reads-header i _ _ (rw (map_header n h, (and_low n h).1) (Reads-pure i n));
    })

    Trip-map_16 : n < 2 ^ 16 → Trip o i (write_map_16 o n) (read_map_size i) n
    unfolding write_map_16 read_map_size header_type
    Trip-map_16 h = record {
      wire = Header.map_16 ∷ be_bytes 2 n;
      writes = Writes-word o Header.map_16 2 n;
      reads = Reads-header i _ Header.map_16 (Reads-be i 2 n h);
    }

    Trip-map_32 : n < 2 ^ 32 → Trip o i (write_map_32 o n) (read_map_size i) n
    unfolding write_map_32 read_map_size header_type
    Trip-map_32 h = record {
      wire = Header.map_32 ∷ be_bytes 4 n;
      writes = Writes-word o Header.map_32 4 n;
      reads = Reads-header i _ Header.map_32 (Reads-be i 4 n h);
    }

    -- Every map size below 2 ^ 32 that write_map_size writes is read back by read_map_size, which
    -- takes just the bytes written.
    pub read_map_size-write_map_size :
        n < 2 ^ 32 → Trip o i (write_map_size o n) (read_map_size i) n
    unfolding write_map_size
    read_map_size-write_map_size h =
        Trip-if o i (leb n 15) (λ e. Trip-map_fixed (ground arith))
          λ _. Trip-if o i (leb n 0xffff) (λ e. Trip-map_16 (ground arith)) λ _. Trip-map_32 h

  Trip-raw_fixed :
      (n : ℕ) → n < 32 → Trip o i (o.put (bit_or Header.raw_fixed n)) (read_raw_size i) n
  unfolding read_raw_size mask
  Trip-raw_fixed n h = rw (or_low_raw n h) (record {
    wire = (0xa0 + n) ∷ [];
    writes = Writes-put o _;
    reads = Reads-header i _ _ (rw (raw_header n h, and_low_raw n h) (Reads-pure i n));
  })

  Trip-raw_size : (n : ℕ) → n < 2 ^ 32 → Trip o i (write_raw_size o n) (read_raw_size i) n
  unfolding write_raw_size write_raw_16 write_raw_32 read_raw_size header_type mask
  Trip-raw_size n h =
      Trip-if o i (leb n 31) (λ e. Trip-raw_fixed n (ground arith))
        λ _.
          Trip-if o i (leb n 0xffff)
            (λ e. record {
              wire = Header.raw_16 ∷ be_bytes 2 n;
              writes = Writes-word o Header.raw_16 2 n;
              reads = Reads-header i _ Header.raw_16 (Reads-be i 2 n (ground arith));
            })
            λ _. record {
              wire = Header.raw_32 ∷ be_bytes 4 n;
              writes = Writes-word o Header.raw_32 4 n;
              reads = Reads-header i _ Header.raw_32 (Reads-be i 4 n h);
            }

  -- Every string of fewer than 2 ^ 32 bytes that write_raw writes is read back by read_raw, which
  -- takes just the bytes written.
  pub read_raw-write_raw :
      (bs : List ℕ) → length bs < 2 ^ 32 → Trip o i (write_raw o bs) (read_raw i) bs
  unfolding write_raw read_raw
  read_raw-write_raw bs h =
      let size = Trip-raw_size (length bs) h in
      record {
        wire = size.wire ++ (bs ++ []);
        writes = rw (append-nil bs) (Writes-then o size.writes (Writes-zerocopy o bs));
        reads = Reads-bind i _ size.reads (Reads-bind i _ (Reads-read i (length bs) bs refl) rest);
      }
    where
      rest : Reads i (pure (bs ++ replicate (length bs - length bs) 0)) [] bs
      rest =
          let e : length bs - length bs ≡ 0 = omega arith in rw (e, append-nil bs) (Reads-pure i bs)

  pub read_bool-write_bool : (x : Bool) → Trip o i (write_bool o x) (read_bool i) x
  unfolding write_bool read_bool is_header
  read_bool-write_bool true = record {
    wire = Header.bool_true ∷ [];
    writes = Writes-put o Header.bool_true;
    reads = Reads-header i _ Header.bool_true (Reads-pure i true);
  }
  read_bool-write_bool false = record {
    wire = Header.bool_false ∷ [];
    writes = Writes-put o Header.bool_false;
    reads = Reads-header i _ Header.bool_false (Reads-pure i false);
  }

  pub read_nil-write_nil : Trip o i (write_nil o) (read_nil i) tt
  unfolding write_nil read_nil is_header
  read_nil-write_nil = record {
    wire = Header.nil ∷ [];
    writes = Writes-put o Header.nil;
    reads = Reads-header i _ Header.nil (Reads-pure i tt);
  }

  pub read_float-write_float : (x : ℕ) → x < 2 ^ 32 → Trip o i (write_float o x) (read_float i) x
  unfolding write_float read_float is_header
  read_float-write_float x h = record {
    wire = Header.float ∷ be_bytes 4 x;
    writes = Writes-word o Header.float 4 x;
    reads = Reads-header i _ Header.float (Reads-be i 4 x h);
  }

  pub read_double-write_double :
      (x : ℕ) → x < 2 ^ 64 → Trip o i (write_double o x) (read_double i) x
  unfolding write_double read_double is_header
  read_double-write_double x h = record {
    wire = Header.double ∷ be_bytes 8 x;
    writes = Writes-word o Header.double 8 x;
    reads = Reads-header i _ Header.double (Reads-be i 8 x h);
  }
