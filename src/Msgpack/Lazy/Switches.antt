-- ===== src/Msgpack/Lazy/Switches.antt =====
-- read_lazy of src/lib/schwa/msgpack/wire_impl.h on the headers and words of the format.
use libschwa.Prelude.{
  ℕ, suc, ◌+◌, ◌*◌, ◌^◌, ◌<◌, ◌≡◌, refl, true, some, List, [], ◌∷◌, ◌++◌, length,
}
use native.Mathlib.Nat.{mod-eq_of_lt}
use libschwa.Exec.{pure, ◌>>◌}
use libschwa.Io.Stream.{In, Out}
use libschwa.Io.Effects.{Reads-get, Reads-word, Writes-put, Writes-write}
use libschwa.Msgpack.Header
use libschwa.Msgpack.Endian.{be_bytes, length-be_bytes}
use libschwa.Msgpack.Enums.{WireType}
use libschwa.Msgpack.Table.{header_type}
use libschwa.Msgpack.Words.{Reads-be, Writes-be}
use libschwa.Msgpack.RoundTrip.{
  fixnum_header, and_low, and_low_raw, array_header, map_header, raw_header,
}
use libschwa.Msgpack.Dynamic.{Value}
use libschwa.Msgpack.Dynamic.Format.{
  Scalar, stored_nil, stored_true, stored_false, stored_fixnum, stored_uint_8, stored_uint_16,
  stored_uint_32, stored_uint_64, stored_int_8, stored_int_16, stored_int_32, stored_int_64,
  stored_float, stored_double, ArrayHead, array_head_fixed, array_head_16, array_head_32, MapHead,
  map_head_fixed, map_head_32, RawHead, raw_head_fixed, raw_head_16, raw_head_32,
}
use libschwa.Msgpack.Lazy.{
  Todo, done, recurse, raw, put_if, pass_byte, pass_bytes, pass_be, lazy_switch, repeat, raw_step,
  lazy_rest, lazy_value, read_lazy,
}
use libschwa.Msgpack.Lazy.Loads.{
  Loads, Loads-pure, Loads-bind, Loads-in, Loads-out, Loads-end, Loads-across,
}

module _ {S : Type 0} {V : S → Type 0} (i : In S V) {T : Type 0} {W : T → Type 0}
    (o : Out T W) where
  Loads-pass_byte : (c : ℕ) → Loads i o (pass_byte i o) (c ∷ []) (c ∷ []) (some c)
  unfolding pass_byte put_if
  Loads-pass_byte c =
      Loads-bind i o _ (Loads-in i o (Reads-get i c))
        (Loads-end i o _ (Loads-out i o (Writes-put o c)) (Loads-pure i o (some c)))

  Loads-pass_bytes : (n : ℕ) (bs : List ℕ) → length bs ≡ n → Loads i o (pass_bytes i o n) bs bs tt
  unfolding pass_bytes
  Loads-pass_bytes n bs h =
      Loads-across i o _ (Loads-in i o (Reads-word i n bs h)) (Loads-out i o (Writes-write o bs))

  Loads-pass_be :
      (n x : ℕ) → x < 256 ^ n → Loads i o (pass_be i o n) (be_bytes n x) (be_bytes n x) x
  unfolding pass_be
  Loads-pass_be n x h =
      Loads-across i o _ (Loads-in i o (Reads-be i n x h))
        (Loads-end i o _ (Loads-out i o (Writes-be o n x)) (Loads-pure i o x))

  -- A header byte with the word behind it, and what the switch makes of them.
  pub record Switches (bs : List ℕ) (todo : Todo) : Type 0 where
    pub first : ℕ
    pub later : List ℕ
    pub split : bs ≡ first ∷ later
    pub loads : Loads i o (lazy_switch i o (header_type (some first)) first) later later todo

  -- A word that is passed whole.
  passed :
      (c n x : ℕ)
      → Loads i o (lazy_switch i o (header_type (some c)) c) (be_bytes n x) (be_bytes n x) done
      → Switches (c ∷ be_bytes n x) done
  passed c n x l = record { first = c; later = be_bytes n x; split = refl; loads = l }

  passed_word :
      (n x : ℕ) → Loads i o (do pass_bytes i o n; pure done) (be_bytes n x) (be_bytes n x) done
  passed_word n x =
      Loads-end i o _ (Loads-pass_bytes n (be_bytes n x) (length-be_bytes n x))
        (Loads-pure i o done)

  alone :
      (c : ℕ)
      → Loads i o (lazy_switch i o (header_type (some c)) c) [] [] done
      → Switches (c ∷ []) done
  alone c l = record { first = c; later = []; split = refl; loads = l }

  pub Scalar-Switches : {bs : List ℕ} {v : Value} → Scalar bs v → Switches bs done
  unfolding lazy_switch header_type
  Scalar-Switches stored_nil = alone Header.nil (Loads-pure i o done)
  Scalar-Switches stored_true = alone Header.bool_true (Loads-pure i o done)
  Scalar-Switches stored_false = alone Header.bool_false (Loads-pure i o done)
  Scalar-Switches (stored_fixnum x h) = alone x (rw (fixnum_header x h) (Loads-pure i o done))
  Scalar-Switches (stored_uint_8 x h) = passed Header.uint_8 1 x (passed_word 1 x)
  Scalar-Switches (stored_uint_16 x h) = passed Header.uint_16 2 x (passed_word 2 x)
  Scalar-Switches (stored_uint_32 x h) = passed Header.uint_32 4 x (passed_word 4 x)
  Scalar-Switches (stored_uint_64 x h) = passed Header.uint_64 8 x (passed_word 8 x)
  Scalar-Switches (stored_int_8 x h) = passed Header.int_8 1 x (passed_word 1 x)
  Scalar-Switches (stored_int_16 x h) = passed Header.int_16 2 x (passed_word 2 x)
  Scalar-Switches (stored_int_32 x h) = passed Header.int_32 4 x (passed_word 4 x)
  Scalar-Switches (stored_int_64 x h) = passed Header.int_64 8 x (passed_word 8 x)
  Scalar-Switches (stored_float x h) = passed Header.float 4 x (passed_word 4 x)
  Scalar-Switches (stored_double x h) = passed Header.double 8 x (passed_word 8 x)

  pub ArrayHead-Switches :
      {n : ℕ} {hs : List ℕ} {t : WireType} → ArrayHead n hs t → Switches hs (recurse n)
  unfolding lazy_switch header_type
  ArrayHead-Switches (array_head_fixed n h) = record {
    first = 0x90 + n;
    later = [];
    split = refl;
    loads = rw (array_header n h, (and_low n h).0) (Loads-pure i o (recurse n));
  }
  ArrayHead-Switches (array_head_16 n h) = record {
    first = Header.array_16;
    later = be_bytes 2 n;
    split = refl;
    loads = Loads-end i o _ (Loads-pass_be 2 n h) (Loads-pure i o (recurse n));
  }
  ArrayHead-Switches (array_head_32 n h) = record {
    first = Header.array_32;
    later = be_bytes 4 n;
    split = refl;
    loads = Loads-end i o _ (Loads-pass_be 4 n h) (Loads-pure i o (recurse n));
  }

  -- The count of a map's keys and values has to fit in 32 bits.
  pub MapHead-Switches :
      {n : ℕ} {hs : List ℕ} {t : WireType}
      → MapHead n hs t
      → n * 2 < 2 ^ 32
      → Switches hs (recurse (n * 2))
  unfolding lazy_switch header_type
  MapHead-Switches (map_head_fixed n h) k = record {
    first = 0x80 + n;
    later = [];
    split = refl;
    loads = rw (map_header n h, (and_low n h).1, mod-eq_of_lt k) (Loads-pure i o (recurse (n * 2)));
  }
  MapHead-Switches (map_head_32 n h) k = record {
    first = Header.map_32;
    later = be_bytes 4 n;
    split = refl;
    loads =
        Loads-end i o _ (Loads-pass_be 4 n h)
          (rw (mod-eq_of_lt k) (Loads-pure i o (recurse (n * 2))));
  }

  pub RawHead-Switches : {n : ℕ} {hs : List ℕ} {t : WireType} → RawHead n hs t → Switches hs (raw n)
  unfolding lazy_switch header_type
  RawHead-Switches (raw_head_fixed n h) = record {
    first = 0xa0 + n;
    later = [];
    split = refl;
    loads = rw (raw_header n h, and_low_raw n h) (Loads-pure i o (raw n));
  }
  RawHead-Switches (raw_head_16 n h) = record {
    first = Header.raw_16;
    later = be_bytes 2 n;
    split = refl;
    loads = Loads-end i o _ (Loads-pass_be 2 n h) (Loads-pure i o (raw n));
  }
  RawHead-Switches (raw_head_32 n h) = record {
    first = Header.raw_32;
    later = be_bytes 4 n;
    split = refl;
    loads = Loads-end i o _ (Loads-pass_be 4 n h) (Loads-pure i o (raw n));
  }

  pub Loads-value :
      (fuel : ℕ) {hs bs : List ℕ} {todo : Todo}
      → Switches hs todo
      → Loads i o (lazy_rest i o (read_lazy i o fuel) todo) bs bs true
      → Loads i o (read_lazy i o (suc fuel)) (hs ++ bs) (hs ++ bs) true
  unfolding read_lazy lazy_value
  Loads-value fuel s l =
      rw s.split (Loads-bind i o _ (Loads-pass_byte s.first) (Loads-bind i o _ s.loads l))

  pub Loads-repeat_raw :
      (bs : List ℕ) → Loads i o (repeat i o (raw_step i o) (length bs)) bs bs true
  unfolding repeat raw_step
  Loads-repeat_raw [] = Loads-pure i o true
  Loads-repeat_raw (b ∷ bs) =
      Loads-bind i o _ (Loads-end i o _ (Loads-pass_byte b) (Loads-pure i o true))
        (Loads-repeat_raw bs)
