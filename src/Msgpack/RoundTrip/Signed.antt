-- ===== src/Msgpack/RoundTrip/Signed.antt =====
-- write_int with read_int (src/lib/schwa/msgpack/wire_impl.h).
use libschwa.Prelude.{
  ℕ, ◌+◌, ◌-◌, ◌*◌, ◌^◌, ◌<◌, ◌≡◌, refl, ◌∙◌, true, some, [], ◌∷◌, append-nil, ◌%◌, arith,
  if◌then◌else◌, bit_and,
}
use libschwa.Prelude.Bits.{agree_below, agree_below→eq}
use libschwa.Prelude.Int.{ℤ, pos, negsuc, to_word, of_word, IsSigned, of_word-to_word, to_word-lt}
use libschwa.Exec.{pure}
use libschwa.Io.Stream.{In, Out}
use libschwa.Io.Effects.{Reads, Reads-pure, Reads-bind, Writes, Writes-write}
use libschwa.Msgpack.Header
use libschwa.Msgpack.Endian.{be_bytes}
use libschwa.Msgpack.Enums.{fixnum_negative}
use libschwa.Msgpack.Table.{header_type, format, header_type-eq-format}
use libschwa.Msgpack.Write.{
  in_range, write_be, write_int_fixed, write_int8, write_int16, write_int32, write_int64,
  write_uint_fixed, write_int,
}
use libschwa.Msgpack.Read.{
  mask, read_val_int, read_val_int_fixed, mask, read_val_uint_fixed, read_int,
}
use libschwa.Msgpack.Words.{Reads-be, Reads-header, Writes-word}
use libschwa.Msgpack.Trip.{Trip, Trip-if}
use libschwa.Msgpack.RoundTrip.Unsigned.{low_seven, fixnum_header, Writes-fixed}

-- The integers from -32 to -1.
abbrev pub IsNegativeFixnum : ℤ → Type 0
IsNegativeFixnum (pos n) = ⊥
IsNegativeFixnum (negsuc n) = n < 32

in_range-IsSigned :
    (h : ℕ) (x : ℤ) → 0 < h → in_range (negsuc (h - 1)) (pos (h - 1)) x ≡ true → IsSigned h x
in_range-IsSigned h (pos n) p e = ground arith
in_range-IsSigned h (negsuc n) p e = ground arith

-- An intN_t of `n` bytes, `2 * h` values, is read from its pattern.
module _ {S : Type 0} {V : S → Type 0} (i : In S V) where
  pub Reads-int :
      (n h : ℕ) (x : ℤ)
      → 0 < h
      → 2 * h ≡ 256 ^ n
      → IsSigned h x
      → Reads i (read_val_int i n h) (be_bytes n (to_word (2 * h) x)) x
  unfolding read_val_int
  Reads-int n h x p e r = rw (← append-nil (be_bytes n (to_word (2 * h) x))) (
      Reads-bind i _
        (Reads-be i n (to_word (2 * h) x) (rw (← e) (to_word-lt (2 * h) x (omega arith)))) last)
    where
      last : Reads i (pure (of_word h (to_word (2 * h) x))) [] x
      last = rw (of_word-to_word h x r) (Reads-pure i x)

module _ {T : Type 0} {W : T → Type 0} (o : Out T W) {S : Type 0} {V : S → Type 0}
    (i : In S V) where
  Trip-fixed : (n : ℕ) → n < 128 → Trip o i (write_uint_fixed o (n % 256)) (read_int i) (pos n)
  unfolding read_int read_val_uint_fixed
  Trip-fixed n h =
      let e : n % 256 ≡ n = omega arith in
      rw e (record {
        wire = n ∷ [];
        writes = Writes-fixed o i n h;
        reads = Reads-header i _ n (rw (fixnum_header n h, low_seven n h) (Reads-pure i (pos n)));
      })

  module _ (x : ℤ) where
    Trip-int8 : IsSigned (2 ^ 7) x → Trip o i (write_int8 o x) (read_int i) x
    unfolding write_int8 read_int header_type
    Trip-int8 r = record {
      wire = Header.int_8 ∷ be_bytes 1 (to_word (2 * 2 ^ 7) x);
      writes = Writes-word o Header.int_8 1 _;
      reads = Reads-header i _ Header.int_8 (Reads-int i 1 (2 ^ 7) x (omega arith) refl r);
    }

    Trip-int16 : IsSigned (2 ^ 15) x → Trip o i (write_int16 o x) (read_int i) x
    unfolding write_int16 read_int header_type
    Trip-int16 r = record {
      wire = Header.int_16 ∷ be_bytes 2 (to_word (2 * 2 ^ 15) x);
      writes = Writes-word o Header.int_16 2 _;
      reads = Reads-header i _ Header.int_16 (Reads-int i 2 (2 ^ 15) x (omega arith) refl r);
    }

    Trip-int32 : IsSigned (2 ^ 31) x → Trip o i (write_int32 o x) (read_int i) x
    unfolding write_int32 read_int header_type
    Trip-int32 r = record {
      wire = Header.int_32 ∷ be_bytes 4 (to_word (2 * 2 ^ 31) x);
      writes = Writes-word o Header.int_32 4 _;
      reads = Reads-header i _ Header.int_32 (Reads-int i 4 (2 ^ 31) x (omega arith) refl r);
    }

    Trip-int64 : IsSigned (2 ^ 63) x → Trip o i (write_int64 o x) (read_int i) x
    unfolding write_int64 read_int header_type
    Trip-int64 r = record {
      wire = Header.int_64 ∷ be_bytes 8 (to_word (2 * 2 ^ 63) x);
      writes = Writes-word o Header.int_64 8 _;
      reads = Reads-header i _ Header.int_64 (Reads-int i 8 (2 ^ 63) x (omega arith) refl r);
    }

  wide :
      (x : ℤ)
      → IsSigned (2 ^ 63) x
      → Trip o i
          (if in_range (negsuc (2 ^ 7 - 1)) (pos (2 ^ 7 - 1)) x
            then write_int8 o x
            else if in_range (negsuc (2 ^ 15 - 1)) (pos (2 ^ 15 - 1)) x
            then write_int16 o x
            else if in_range (negsuc (2 ^ 31 - 1)) (pos (2 ^ 31 - 1)) x
            then write_int32 o x
            else write_int64 o x)
          (read_int i)
          x
  wide x r =
      Trip-if o i (in_range (negsuc (2 ^ 7 - 1)) (pos (2 ^ 7 - 1)) x)
        (λ e. Trip-int8 x (in_range-IsSigned (2 ^ 7) x (omega arith) e))
        λ _.
          Trip-if o i (in_range (negsuc (2 ^ 15 - 1)) (pos (2 ^ 15 - 1)) x)
            (λ e. Trip-int16 x (in_range-IsSigned (2 ^ 15) x (omega arith) e))
            λ _.
              Trip-if o i (in_range (negsuc (2 ^ 31 - 1)) (pos (2 ^ 31 - 1)) x)
                (λ e. Trip-int32 x (in_range-IsSigned (2 ^ 31) x (omega arith) e))
                λ _. Trip-int64 x r

  -- Every int64_t outside -32 .. -1 that write_int writes to a valid sink is read back by read_int
  -- from a valid source where those bytes come next, and read_int takes just those bytes.
  pub read_int-write_int :
      (x : ℤ)
      → IsSigned (2 ^ 63) x
      → ¬ (IsNegativeFixnum x)
      → Trip o i (write_int o x) (read_int i) x
  unfolding write_int
  read_int-write_int (pos n) r h =
      Trip-if o i (in_range (negsuc 31) (negsuc 0) (pos n)) (λ e. absurd (ground arith))
        λ _.
          Trip-if o i (in_range (pos 0) (pos 127) (pos n)) (λ e. Trip-fixed n (ground arith))
            λ _. wide (pos n) r
  read_int-write_int (negsuc n) r h =
      Trip-if o i (in_range (negsuc 31) (negsuc 0) (negsuc n)) (λ e. absurd (h (ground arith)))
        λ _.
          Trip-if o i (in_range (pos 0) (pos 127) (negsuc n)) (λ e. absurd (ground arith))
            λ _. wide (negsuc n) r

masked : (n : ℕ) → n < 32 → bit_and n 0xE0 ≡ 0
unfolding agree_below
masked = agree_below→eq _ _ 32 refl

low_five_bits : (k : ℕ) → k < 32 → bit_and (0xe0 + k) 0x1F ≡ k
unfolding agree_below
low_five_bits = agree_below→eq (λ n. bit_and (0xe0 + n) 0x1F) (λ n. n) 32 refl

low_five : (k : ℕ) → k < 32 → of_word (2 ^ 7) (bit_and (0xe0 + k) 0x1F) ≡ pos k
low_five k h = rw (low_five_bits k h) (ground arith)

negative_header : (k : ℕ) → k < 32 → header_type (some (0xe0 + k)) ≡ fixnum_negative
negative_header k h = header_type-eq-format (0xe0 + k) ∙ (unfold format in ground arith)

-- write_int stores every integer from -32 to -1 as the one byte 0.
pub write_int-negative_fixnum :
    {T : Type 0} {W : T → Type 0} (o : Out T W) (n : ℕ)
    → n < 32
    → Writes o (write_int o (negsuc n)) (0 ∷ [])
unfolding write_int write_int_fixed write_be be_bytes
write_int-negative_fixnum o n h =
    let small : in_range (negsuc 31) (negsuc 0) (negsuc n) ≡ true = ground arith in
    let w : 255 - to_word 256 (negsuc n) ≡ n = omega arith in
    rw (small, w, masked n h) (Writes-write o (0 ∷ []))

-- read_int takes the byte 0xe0 + k, for k below 32, for the integer k.
pub read_int-negative_fixnum :
    {S : Type 0} {V : S → Type 0} (i : In S V) (k : ℕ)
    → k < 32
    → Reads i (read_int i) ((0xe0 + k) ∷ []) (pos k)
unfolding read_int read_val_int_fixed mask
read_int-negative_fixnum i k h =
    Reads-header i _ (0xe0 + k) (rw (negative_header k h, low_five k h) (Reads-pure i (pos k)))
