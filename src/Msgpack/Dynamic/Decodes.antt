-- ===== src/Msgpack/Dynamic/Decodes.antt =====
-- read_dynamic (src/lib/schwa/msgpack/wire_impl.h) on the bytes of a value.
use libschwa.Prelude.{ℕ, suc, ◌^◌, ◌≡◌, refl, some, List, [], ◌∷◌, append-nil, length}
use libschwa.Io.Stream.{In}
use libschwa.Io.Effects.{Reads, Reads-pure, Reads-bind}
use libschwa.Msgpack.Header
use libschwa.Msgpack.Enums
use libschwa.Msgpack.Enums.{WireType}
use libschwa.Msgpack.Table.{header_type}
use libschwa.Msgpack.Read.{
  read_uint, read_int, read_val_int, read_val_uint_fixed, is_header, mask, read_nil, read_bool,
  read_float, read_double,
}
use libschwa.Msgpack.Words.{Reads-be, Reads-header}
use libschwa.Msgpack.RoundTrip.{low_seven, fixnum_header}
use libschwa.Msgpack.Dynamic.{
  Value, value, Via, via_array, via_map, via_raw, via_uint64, via_int64, done, dynamic_switch,
  dynamic_rest, read_dynamic,
}
use libschwa.Msgpack.Dynamic.Format.{
  Scalar, stored_nil, stored_true, stored_false, stored_fixnum, stored_uint_8, stored_uint_16,
  stored_uint_32, stored_uint_64, stored_int_8, stored_int_16, stored_int_32, stored_int_64,
  stored_float, stored_double,
}
use libschwa.Msgpack.Dynamic.Steps.{
  Switches, Reads-map, Reads-raw, Reads-value, ArrayHead-Switches, MapHead-Switches,
  RawHead-Switches,
}
use libschwa.Prelude.{true, false}
use libschwa.Prelude.Int.{of_word}
use libschwa.Msgpack.Dynamic.{
  unset, via_bool, via_float, via_double, element, read_items, read_entries, no_values, value_and,
  no_pairs, pair_and, Values, Pairs,
}
use libschwa.Msgpack.Dynamic.Format.{
  Stored, stored_scalar, stored_raw, stored_array, stored_map, Items, no_items, item_and, Entries,
  no_entries, entry_and,
}

module _ {S : Type 0} {V : S → Type 0} (i : In S V) where
  -- A value that the switch alone decodes.
  record Scalars (bs : List ℕ) (v : Value) : Type 0 where
    type : WireType
    via : Via
    same : v ≡ value type via
    step : Switches i bs type (done via)

  scalar_step :
      (c : ℕ) (later : List ℕ) (t : WireType) (via : Via)
      → header_type (some c) ≡ t
      → Reads i (dynamic_switch i t c) (c ∷ later) (done via)
      → Scalars (c ∷ later) (value t via)
  scalar_step c later t via e r = record {
    type = t;
    via = via;
    same = refl;
    step = record { first = c; later = later; split = refl; kind = e; reads = r };
  }

  Scalar-Scalars : {bs : List ℕ} {v : Value} → Scalar bs v → Scalars bs v
  unfolding dynamic_switch header_type read_uint read_int read_float read_double read_nil read_bool
      read_val_int is_header read_val_uint_fixed mask
  Scalar-Scalars stored_nil =
      scalar_step Header.nil [] Enums.nil _ refl
        (Reads-map i (λ _. done unset) (Reads-header i _ Header.nil (Reads-pure i tt)))
  Scalar-Scalars stored_true =
      scalar_step Header.bool_true [] Enums.bool_true _ refl (
        Reads-map i (λ x. done (via_bool x))
          (Reads-header i _ Header.bool_true (Reads-pure i true)))
  Scalar-Scalars stored_false = scalar_step Header.bool_false [] Enums.bool_false _ refl (
      Reads-map i (λ x. done (via_bool x))
        (Reads-header i _ Header.bool_false (Reads-pure i false)))
  Scalar-Scalars (stored_fixnum x h) =
      scalar_step x [] Enums.fixnum_positive _ (fixnum_header x h) (
        Reads-map i (λ x. done (via_uint64 x))
          (Reads-header i _ x (rw (fixnum_header x h, low_seven x h) (Reads-pure i x))))
  Scalar-Scalars (stored_uint_8 x h) =
      scalar_step Header.uint_8 _ Enums.uint_8 _ refl
        (Reads-map i (λ x. done (via_uint64 x)) (Reads-header i _ Header.uint_8 (Reads-be i 1 x h)))
  Scalar-Scalars (stored_uint_16 x h) =
      scalar_step Header.uint_16 _ Enums.uint_16 _ refl (
        Reads-map i (λ x. done (via_uint64 x)) (Reads-header i _ Header.uint_16 (Reads-be i 2 x h)))
  Scalar-Scalars (stored_uint_32 x h) =
      scalar_step Header.uint_32 _ Enums.uint_32 _ refl (
        Reads-map i (λ x. done (via_uint64 x)) (Reads-header i _ Header.uint_32 (Reads-be i 4 x h)))
  Scalar-Scalars (stored_uint_64 x h) =
      scalar_step Header.uint_64 _ Enums.uint_64 _ refl (
        Reads-map i (λ x. done (via_uint64 x)) (Reads-header i _ Header.uint_64 (Reads-be i 8 x h)))
  Scalar-Scalars (stored_int_8 w h) = scalar_step Header.int_8 _ Enums.int_8 _ refl (
      Reads-map i (λ x. done (via_int64 x))
        (Reads-header i _ Header.int_8 (Reads-map i (of_word (2 ^ 7)) (Reads-be i 1 w h))))
  Scalar-Scalars (stored_int_16 w h) = scalar_step Header.int_16 _ Enums.int_16 _ refl (
      Reads-map i (λ x. done (via_int64 x))
        (Reads-header i _ Header.int_16 (Reads-map i (of_word (2 ^ 15)) (Reads-be i 2 w h))))
  Scalar-Scalars (stored_int_32 w h) = scalar_step Header.int_32 _ Enums.int_32 _ refl (
      Reads-map i (λ x. done (via_int64 x))
        (Reads-header i _ Header.int_32 (Reads-map i (of_word (2 ^ 31)) (Reads-be i 4 w h))))
  Scalar-Scalars (stored_int_64 w h) = scalar_step Header.int_64 _ Enums.int_64 _ refl (
      Reads-map i (λ x. done (via_int64 x))
        (Reads-header i _ Header.int_64 (Reads-map i (of_word (2 ^ 63)) (Reads-be i 8 w h))))
  Scalar-Scalars (stored_float x h) =
      scalar_step Header.float _ Enums.float _ refl
        (Reads-map i (λ x. done (via_float x)) (Reads-header i _ Header.float (Reads-be i 4 x h)))
  Scalar-Scalars (stored_double x h) =
      scalar_step Header.double _ Enums.double _ refl
        (Reads-map i (λ x. done (via_double x)) (Reads-header i _ Header.double (Reads-be i 8 x h)))

  Reads-Scalar :
      (d : ℕ) {bs : List ℕ} {v : Value} → Scalar bs v → Reads i (read_dynamic i (suc d)) bs (some v)
  unfolding dynamic_rest
  Reads-Scalar d {bs} {v} s =
      let c = Scalar-Scalars s in
      rw (c.same, ← append-nil bs) (Reads-value i d c.step (Reads-pure i c.via))

  mutual
    unfolding dynamic_rest read_items read_entries element

    Reads-Stored :
        {d : ℕ} {bs : List ℕ} {v : Value}
        → Stored d bs v
        → Reads i (read_dynamic i (suc d)) bs (some v)
    Reads-Stored {d} (stored_scalar s) = Reads-Scalar d s
    Reads-Stored {d} (stored_raw bs h) =
        Reads-value i d (RawHead-Switches i h) (Reads-map i (via_raw (length bs)) (Reads-raw i bs))
    Reads-Stored (stored_array {d} h r) =
        Reads-value i (suc d) (ArrayHead-Switches i h) (Reads-map i via_array (Reads-Items r))
    Reads-Stored (stored_map {d} h r) =
        Reads-value i (suc d) (MapHead-Switches i h) (Reads-map i via_map (Reads-Entries r))

    Reads-Items :
        {d n : ℕ} {bs : List ℕ} {vs : Values}
        → Items d n bs vs
        → Reads i (read_items i (read_dynamic i (suc d)) n) bs vs
    Reads-Items no_items = Reads-pure i no_values
    Reads-Items (item_and {v = v} s r) =
        Reads-bind i _ (Reads-Stored s) (Reads-map i (value_and v) (Reads-Items r))

    Reads-Entries :
        {d n : ℕ} {bs : List ℕ} {kvs : Pairs}
        → Entries d n bs kvs
        → Reads i (read_entries i (read_dynamic i (suc d)) n) bs kvs
    Reads-Entries no_entries = Reads-pure i no_pairs
    Reads-Entries (entry_and {k = k} {v = v} s t r) =
        Reads-bind i _ (Reads-Stored s)
          (Reads-bind i _ (Reads-Stored t) (Reads-map i (pair_and k v) (Reads-Entries r)))

  -- read_dynamic decodes the bytes of any value, except for maps with 16-bit headers and negative
  -- fixnums, into that value, and takes no byte more, on fuel that is one more than the depth to
  -- which its arrays and maps lie in one another.
  pub Reads-read_dynamic :
      (d : ℕ) (bs : List ℕ) (v : Value)
      → Stored d bs v
      → Reads i (read_dynamic i (suc d)) bs (some v)
  Reads-read_dynamic d bs v s = Reads-Stored s
