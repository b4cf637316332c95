-- ===== src/Msgpack/Dynamic/Format.antt =====
-- The bytes of a value in the MessagePack format, for the trees of src/lib/schwa/msgpack/dynamic.h:
-- what read_dynamic is to decode, stated without it.
use libschwa.Prelude.{ℕ, zero, suc, ◌+◌, ◌^◌, ◌<◌, List, [], ◌∷◌, ◌++◌, length}
use libschwa.Prelude.Int.{of_word}
use libschwa.Msgpack.Header
use libschwa.Msgpack.Endian.{be_bytes}
use libschwa.Msgpack.Enums
use libschwa.Msgpack.Enums.{WireType}
use libschwa.Msgpack.Dynamic.{
  Value, value, unset, via_array, via_map, via_raw, via_bool, via_int64, via_uint64, via_float,
  via_double, Values, no_values, value_and, Pairs, no_pairs, pair_and,
}
use libschwa.Prelude.{true, false}

-- A word of `n` bytes behind a header byte.
abbrev pub word : ℕ → ℕ → ℕ → List ℕ
word c n x = c ∷ be_bytes n x

-- The values that hold no other. A signed word is given by its bit pattern.
pub data Scalar : List ℕ → Value → Type 0 where
  stored_nil : Scalar (Header.nil ∷ []) (value Enums.nil unset)
  stored_true : Scalar (Header.bool_true ∷ []) (value Enums.bool_true (via_bool true))
  stored_false : Scalar (Header.bool_false ∷ []) (value Enums.bool_false (via_bool false))
  stored_fixnum : (x : ℕ) → x < 128 → Scalar (x ∷ []) (value Enums.fixnum_positive (via_uint64 x))
  stored_uint_8 :
      (x : ℕ) → x < 2 ^ 8 → Scalar (word Header.uint_8 1 x) (value Enums.uint_8 (via_uint64 x))
  stored_uint_16 :
      (x : ℕ) → x < 2 ^ 16 → Scalar (word Header.uint_16 2 x) (value Enums.uint_16 (via_uint64 x))
  stored_uint_32 :
      (x : ℕ) → x < 2 ^ 32 → Scalar (word Header.uint_32 4 x) (value Enums.uint_32 (via_uint64 x))
  stored_uint_64 :
      (x : ℕ) → x < 2 ^ 64 → Scalar (word Header.uint_64 8 x) (value Enums.uint_64 (via_uint64 x))
  stored_int_8 :
      (w : ℕ)
      → w < 2 ^ 8
      → Scalar (word Header.int_8 1 w) (value Enums.int_8 (via_int64 (of_word (2 ^ 7) w)))
  stored_int_16 :
      (w : ℕ)
      → w < 2 ^ 16
      → Scalar (word Header.int_16 2 w) (value Enums.int_16 (via_int64 (of_word (2 ^ 15) w)))
  stored_int_32 :
      (w : ℕ)
      → w < 2 ^ 32
      → Scalar (word Header.int_32 4 w) (value Enums.int_32 (via_int64 (of_word (2 ^ 31) w)))
  stored_int_64 :
      (w : ℕ)
      → w < 2 ^ 64
      → Scalar (word Header.int_64 8 w) (value Enums.int_64 (via_int64 (of_word (2 ^ 63) w)))
  stored_float :
      (x : ℕ) → x < 2 ^ 32 → Scalar (word Header.float 4 x) (value Enums.float (via_float x))
  stored_double :
      (x : ℕ) → x < 2 ^ 64 → Scalar (word Header.double 8 x) (value Enums.double (via_double x))

-- The header of an array, a map or a raw of a size. A map has no 16-bit header here.
pub data ArrayHead : ℕ → List ℕ → WireType → Type 0 where
  array_head_fixed : (n : ℕ) → n < 16 → ArrayHead n ((0x90 + n) ∷ []) Enums.array_fixed
  array_head_16 : (n : ℕ) → n < 2 ^ 16 → ArrayHead n (word Header.array_16 2 n) Enums.array_16
  array_head_32 : (n : ℕ) → n < 2 ^ 32 → ArrayHead n (word Header.array_32 4 n) Enums.array_32

pub data MapHead : ℕ → List ℕ → WireType → Type 0 where
  map_head_fixed : (n : ℕ) → n < 16 → MapHead n ((0x80 + n) ∷ []) Enums.map_fixed
  map_head_32 : (n : ℕ) → n < 2 ^ 32 → MapHead n (word Header.map_32 4 n) Enums.map_32

pub data RawHead : ℕ → List ℕ → WireType → Type 0 where
  raw_head_fixed : (n : ℕ) → n < 32 → RawHead n ((0xa0 + n) ∷ []) Enums.raw_fixed
  raw_head_16 : (n : ℕ) → n < 2 ^ 16 → RawHead n (word Header.raw_16 2 n) Enums.raw_16
  raw_head_32 : (n : ℕ) → n < 2 ^ 32 → RawHead n (word Header.raw_32 4 n) Enums.raw_32

-- `Stored d bs v`: the bytes of `v`, in which at most `d` arrays and maps lie in one another.
mutual
  pub data Stored : ℕ → List ℕ → Value → Type 0 where
    stored_scalar : {d : ℕ} {bs : List ℕ} {v : Value} → Scalar bs v → Stored d bs v
    stored_raw :
        {d : ℕ} {hs : List ℕ} {t : WireType} (bs : List ℕ)
        → RawHead (length bs) hs t
        → Stored d (hs ++ bs) (value t (via_raw (length bs) bs))
    stored_array :
        {d n : ℕ} {hs bs : List ℕ} {t : WireType} {vs : Values}
        → ArrayHead n hs t
        → Items d n bs vs
        → Stored (suc d) (hs ++ bs) (value t (via_array vs))
    stored_map :
        {d n : ℕ} {hs bs : List ℕ} {t : WireType} {kvs : Pairs}
        → MapHead n hs t
        → Entries d n bs kvs
        → Stored (suc d) (hs ++ bs) (value t (via_map kvs))

  pub data Items : ℕ → ℕ → List ℕ → Values → Type 0 where
    no_items : {d : ℕ} → Items d zero [] no_values
    item_and :
        {d n : ℕ} {bs cs : List ℕ} {v : Value} {vs : Values}
        → Stored d bs v
        → Items d n cs vs
        → Items d (suc n) (bs ++ cs) (value_and v vs)

  pub data Entries : ℕ → ℕ → List ℕ → Pairs → Type 0 where
    no_entries : {d : ℕ} → Entries d zero [] no_pairs
    entry_and :
        {d n : ℕ} {bs cs es : List ℕ} {k v : Value} {kvs : Pairs}
        → Stored d bs k
        → Stored d cs v
        → Entries d n es kvs
        → Entries d (suc n) (bs ++ (cs ++ es)) (pair_and k v kvs)
