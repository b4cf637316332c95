-- ===== src/Msgpack/Dynamic.antt =====
-- src/lib/schwa/msgpack/dynamic.{h,cc} and read_dynamic of src/lib/schwa/msgpack/wire_impl.h: a value of
-- any type, decoded into a tree.
pub mod Format
pub mod Steps
pub mod Decodes
pub mod Map16
pub mod Takes
pub mod Ends
use libschwa.Prelude.{ℕ, zero, suc, Bool, Option, none, some, List, bit_and, take}
use libschwa.Prelude.Int.{ℤ}
use libschwa.Exec.{out_of_fuel, ok, Exec, pure, raise, ◌>>=◌, ◌>>◌}
use libschwa.Io.Stream.{In}
use libschwa.Io.Effects.{get_byte}
use libschwa.Msgpack.Enums.{
  WireType, fixnum_positive, fixnum_negative, map_fixed, map_16, map_32, array_fixed, array_16,
  array_32, raw_fixed, raw_16, raw_32, nil, bool_true, bool_false, float, double, uint_8, uint_16,
  uint_32, uint_64, int_8, int_16, int_32, int_64, reserved,
}
use libschwa.Msgpack.Table.{header_type}
use libschwa.Msgpack.Read.{
  read_be, read_nil, read_bool, read_uint, read_int, read_float, read_double,
}

-- Value, with its `type` and its union `via`: `unset` is a union that nothing was written to. Array
-- and Map are the lists of their elements. A Raw is a size and a pointer into the source's memory;
-- the list is what the source has there, as far as the size goes.
mutual
  pub data Value : Type 0 where
    value : WireType → Via → Value

  pub data Via : Type 0 where
    unset : Via
    via_array : Values → Via
    via_map : Pairs → Via
    via_raw : ℕ → List ℕ → Via
    via_bool : Bool → Via
    via_int64 : ℤ → Via
    via_uint64 : ℕ → Via
    via_float : ℕ → Via
    via_double : ℕ → Via

  pub data Values : Type 0 where
    no_values : Values
    value_and : Value → Values → Values

  pub data Pairs : Type 0 where
    no_pairs : Pairs
    pair_and : Value → Value → Pairs → Pairs

-- What an element of a new Array or Map is: the constructor `Value()`.
abbrev pub new_value : Value
new_value = value reserved unset

-- The element that a call of read_dynamic leaves; at EOF it returns null and leaves it as it was.
unfoldable pub element : Option Value → Value
element none = new_value
element (some v) = v

-- What the switch leaves: a union that is set, or one of `is_array`, `is_map` and `is_raw` with `s32`.
pub data Todo : Type 0 where
  done : Via → Todo
  items entries bytes : ℕ → Todo

module _ {S : Type 0} {V : S → Type 0} (i : In S V) where
  unfoldable pub peek_byte : Exec S (Option ℕ)
  peek_byte s = (ok (i.peek s), s)

  -- `in.upto()`, where `n` bytes are taken to lie, and then `in.ignore(n)`.
  unfoldable pub raw_bytes : ℕ → Exec S (List ℕ)
  raw_bytes n s = (ok (take n (i.view s)), i.ignore n s)

  unfoldable pub dynamic_switch : WireType → ℕ → Exec S Todo
  dynamic_switch nil h = do read_nil i; pure (done unset)
  dynamic_switch bool_true h = do x ← read_bool i; pure (done (via_bool x))
  dynamic_switch bool_false h = do x ← read_bool i; pure (done (via_bool x))
  dynamic_switch fixnum_positive h = do x ← read_uint i; pure (done (via_uint64 x))
  dynamic_switch uint_8 h = do x ← read_uint i; pure (done (via_uint64 x))
  dynamic_switch uint_16 h = do x ← read_uint i; pure (done (via_uint64 x))
  dynamic_switch uint_32 h = do x ← read_uint i; pure (done (via_uint64 x))
  dynamic_switch uint_64 h = do x ← read_uint i; pure (done (via_uint64 x))
  dynamic_switch fixnum_negative h = do x ← read_int i; pure (done (via_int64 x))
  dynamic_switch int_8 h = do x ← read_int i; pure (done (via_int64 x))
  dynamic_switch int_16 h = do x ← read_int i; pure (done (via_int64 x))
  dynamic_switch int_32 h = do x ← read_int i; pure (done (via_int64 x))
  dynamic_switch int_64 h = do x ← read_int i; pure (done (via_int64 x))
  dynamic_switch float h = do x ← read_float i; pure (done (via_float x))
  dynamic_switch double h = do x ← read_double i; pure (done (via_double x))
  dynamic_switch array_fixed h = do get_byte i; pure (items (bit_and h 0x0F))
  dynamic_switch array_16 h = do get_byte i; s16 ← read_be i 2; pure (items s16)
  dynamic_switch array_32 h = do get_byte i; s32 ← read_be i 4; pure (items s32)
  dynamic_switch map_fixed h = do get_byte i; pure (entries (bit_and h 0x0F))
  dynamic_switch map_16 h = do s16 ← read_be i 2; pure (entries s16)
  dynamic_switch map_32 h = do get_byte i; s32 ← read_be i 4; pure (entries s32)
  dynamic_switch raw_fixed h = do get_byte i; pure (bytes (bit_and h 0x1F))
  dynamic_switch raw_16 h = do get_byte i; s16 ← read_be i 2; pure (bytes s16)
  dynamic_switch raw_32 h = do get_byte i; s32 ← read_be i 4; pure (bytes s32)
  dynamic_switch reserved h = do get_byte i; pure (done unset)

  module _ (read : Exec S (Option Value)) where
    -- The loop over an array, with the recursive call as an argument.
    unfoldable pub read_items : ℕ → Exec S Values
    read_items zero = pure no_values
    read_items (suc n) = do v ← read; vs ← read_items n; pure (value_and (element v) vs)

    -- The loop over a map.
    unfoldable pub read_entries : ℕ → Exec S Pairs
    read_entries zero = pure no_pairs
    read_entries (suc n) = do
      k ← read
      v ← read
      kvs ← read_entries n
      pure (pair_and (element k) (element v) kvs)

    unfoldable pub dynamic_rest : Todo → Exec S Via
    unfolding read_items read_entries raw_bytes
    dynamic_rest (done via) = pure via
    dynamic_rest (items n) = do vs ← read_items n; pure (via_array vs)
    dynamic_rest (entries n) = do kvs ← read_entries n; pure (via_map kvs)
    dynamic_rest (bytes n) = do bs ← raw_bytes n; pure (via_raw n bs)

    unfoldable pub dynamic_value : Option ℕ → Exec S (Option Value)
    unfolding dynamic_switch dynamic_rest
    dynamic_value none = pure none
    dynamic_value (some h) = do
      todo ← dynamic_switch (header_type (some h)) h
      via ← dynamic_rest todo
      pure (some (value (header_type (some h)) via))

  -- `none` is the null pointer. `fuel` bounds how deep values lie in one another. The memory that the
  -- pool gives for the tree is not counted.
  unfoldable pub read_dynamic : ℕ → Exec S (Option Value)
  unfolding peek_byte dynamic_value
  read_dynamic zero = raise out_of_fuel
  read_dynamic (suc fuel) = do h ← peek_byte; dynamic_value (read_dynamic fuel) h
