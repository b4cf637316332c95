-- ===== src/Tests/Instances.antt =====
-- The instance of a registered class at concrete inputs.
use libschwa.Prelude.{
  ℕ, List, refl, some, none, [], ◌∷◌, ◌++◌, ◌==◌, if◌then◌else◌, true, false, arith,
}
use libschwa.Io.ArrayReader.{ArrayReader, array_in, create}
use libschwa.Io.UnsafeArrayWriter.{UnsafeArrayWriter, array_out}
use libschwa.Io.WriteBuffer.Contents.{buffer_out}
use libschwa.Msgpack.Header
use libschwa.Fields.Stores.{IStore, vector_store, vector_at}
use libschwa.Fields.Values
use libschwa.Fields.Values.{Value, number, address, write_value, read_value}
use libschwa.Fields.Passes.{Passes}
use libschwa.Fields.RoundTrip.{read_value-write_value}
use libschwa.Instances
use libschwa.Instances.{Object, Schema, FieldDef, read_instance_group}
use libschwa.Instances.Entries.{key_trip}

-- Three annotations of 24 bytes from the address 240 on.
abbrev tokens : IStore
tokens = vector_store 24 240 3 (omega arith)

read_value-write_value_example :
    Passes buffer_out array_in
      (write_value buffer_out tokens Values.pointer_slice
        (Values.address_range (some 264) (some 288)))
      (read_value array_in tokens Values.pointer_slice)
      tt
      (Values.address_range (some 264) (some 288))
unfolding vector_at
read_value-write_value_example =
    read_value-write_value buffer_out array_in tokens Values.pointer_slice
      (Values.address_range (some 264) (some 288))
      (
        record { index = 1; index_fits = omega arith; stored = refl },
        record { index = 2; index_fits = omega arith; stored = refl },
      )

-- A lazy field, a number and a pointer.
abbrev fields : Schema
fields =
    none
    ∷ some (record {
      slot = 0;
      mode = Instances.read_write;
      kind = Values.uint 32;
      is_self_pointer = false;
      store = tokens;
    })
    ∷ some (record {
      slot = 1;
      mode = Instances.read_write;
      kind = Values.pointer;
      is_self_pointer = true;
      store = tokens;
    })
    ∷ []

abbrev filled : Object
filled = record {
  values = λ n. if n == 0 then number 300 else address (some 264);
  lazy = ((key_trip array_in array_out 0 (omega arith)).wire ++ Header.nil ∷ []) ++ [];
  lazy_nelem = 1;
}

abbrev fresh : Object
fresh = record {
  values = λ n. if n == 0 then number 0 else address none;
  lazy = [];
  lazy_nelem = 0;
}

-- Two instances, the first with a lazy field and the second cut short in a size.
abbrev cut_short : List ℕ
cut_short = 0x92 ∷ 0x81 ∷ 0x00 ∷ 0xc0 ∷ 0x81 ∷ 0x00 ∷ 0xdc ∷ 0x01 ∷ []

abbrev cut_short_end : ArrayReader × UnsafeArrayWriter
cut_short_end =
    (read_instance_group array_in array_out tokens fields (fresh ∷ fresh ∷ [])
      (create cut_short, record { data_bytes = [] })).1
