-- ===== src/Tests/Dynamic.antt =====
-- A run of read_dynamic and its theorems at concrete inputs: a WriteBuffer as the sink and an
-- ArrayReader as the source.
use libschwa.Prelude.{ℕ, ◌≢◌, List, some, [], ◌∷◌, arith}
use libschwa.Exec.{err, out_of_fuel}
use libschwa.Io.ArrayReader.{array_in, create, create-IsValid, view}
use libschwa.Io.Effects.{Reads, Writes}
use libschwa.Io.WriteBuffer.Contents.{buffer_out}
use libschwa.Msgpack.Enums
use libschwa.Msgpack.Write.{write_map_size}
use libschwa.Msgpack.Dynamic.{
  Value, value, unset, via_array, via_map, via_raw, via_uint64, no_values, value_and, no_pairs,
  pair_and, read_dynamic, dynamic_switch, entries,
}
use libschwa.Msgpack.Dynamic.Format.{
  Stored, stored_scalar, stored_raw, stored_array, stored_map, item_and, no_items, entry_and,
  no_entries, stored_nil, stored_fixnum, array_head_fixed, map_head_fixed, raw_head_fixed,
}
use libschwa.Msgpack.Dynamic.Decodes.{Reads-read_dynamic}
use libschwa.Msgpack.Dynamic.Ends.{read_dynamic-ends}
use libschwa.Msgpack.Dynamic.Map16.{dynamic_switch-map_16}

-- An array of 7 and of a map from nil to a raw.
abbrev tree : Value
tree = value Enums.array_fixed (
    via_array (
      value_and (value Enums.fixnum_positive (via_uint64 7)) (
        value_and
          (value Enums.map_fixed (
            via_map (
              pair_and (value Enums.nil unset) (value Enums.raw_fixed (via_raw 2 (104 ∷ 105 ∷ [])))
                no_pairs)))
          no_values)))

abbrev tree_bytes : List ℕ
tree_bytes = 0x92 ∷ 7 ∷ 0x81 ∷ 0xc0 ∷ 0xa2 ∷ 104 ∷ 105 ∷ []

abbrev tree_stored : Stored 2 tree_bytes tree
tree_stored = stored_array (array_head_fixed 2 (omega arith)) (
    item_and (stored_scalar (stored_fixnum 7 (omega arith))) (
      item_and
        (stored_map (map_head_fixed 1 (omega arith)) (
          entry_and (stored_scalar stored_nil)
            (stored_raw (104 ∷ 105 ∷ []) (raw_head_fixed 2 (omega arith))) no_entries))
        no_items))

Reads-read_dynamic_example : Reads array_in (read_dynamic array_in 3) tree_bytes (some tree)
Reads-read_dynamic_example = Reads-read_dynamic array_in 2 tree_bytes tree tree_stored

dynamic_switch-map_16_example :
    Writes buffer_out (write_map_size buffer_out 300) (0xde ∷ 1 ∷ 44 ∷ [])
    × Reads array_in (dynamic_switch array_in Enums.map_16 0xde) (0xde ∷ 1 ∷ []) (entries 0xde01)
dynamic_switch-map_16_example =
    dynamic_switch-map_16 buffer_out array_in 300 (omega arith) (omega arith)

read_dynamic-ends_example : (read_dynamic array_in 8 (create tree_bytes)).0 ≢ err out_of_fuel
unfolding create view
read_dynamic-ends_example =
    read_dynamic-ends array_in 8 (create tree_bytes)
      (create-IsValid tree_bytes (
        omega arith,
        (
          omega arith,
          (omega arith, (omega arith, (omega arith, (omega arith, (omega arith, tt))))),
        ),
      ))
      (omega arith)
