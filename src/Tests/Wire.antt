-- ===== src/Tests/Wire.antt =====
-- Runs of src/lib/schwa/msgpack and its theorems at concrete inputs: a WriteBuffer as the sink and an
-- ArrayReader as the source.
use libschwa.Prelude.{◌≡◌, refl, ◌≢◌, some, [], ◌∷◌, arith}
use libschwa.Prelude.Int.{pos, negsuc}
use libschwa.Exec.{ok, err, out_of_fuel}
use libschwa.Unicode.Utf8.{to_utf8}
use libschwa.Unicode.Utf8 as Utf8
use libschwa.Msgpack.Text.{read_utf8, write_utf8, Trip-text}
use libschwa.Io.ArrayReader.{ArrayReader, create, array_in, view, create-IsValid}
use libschwa.Io.Effects.{Reads, Writes}
use libschwa.Io.WriteBuffer.{WriteBuffer, open_block, store, put, write, write_zerocopy}
use libschwa.Io.WriteBuffer as Buffer
use libschwa.Io.WriteBuffer.Contents.{buffer_out, contents}
use libschwa.Io.WriteBuffer.Contents as Contents
use libschwa.Msgpack.Table.{header_type, format, header_type-eq-format}
use libschwa.Msgpack.Write.{write_uint, write_int, write_raw}
use libschwa.Msgpack.Read.{read_uint, read_int, read_raw}
use libschwa.Msgpack.Trip.{Trip}
use libschwa.Msgpack.RoundTrip.{
  read_uint-write_uint, read_int-write_int, write_int-negative_fixnum, read_int-negative_fixnum,
  read_raw-write_raw,
}
use libschwa.Msgpack.Lazy.{read_lazy}
use libschwa.Msgpack.Lazy.Copies.{Copies}
use libschwa.Msgpack.Lazy.Ends.{read_lazy-ends}

abbrev buffer : WriteBuffer
buffer = Buffer.create 64 8 4096 8

read_uint-write_uint_example :
    Trip buffer_out array_in (write_uint buffer_out 300) (read_uint array_in) 300
read_uint-write_uint_example = read_uint-write_uint buffer_out array_in 300 (omega arith)

read_int-write_int_example :
    Trip buffer_out array_in (write_int buffer_out (negsuc 99)) (read_int array_in) (negsuc 99)
read_int-write_int_example =
    read_int-write_int buffer_out array_in (negsuc 99) (omega arith) (omega arith)

write_int-negative_fixnum_example : Writes buffer_out (write_int buffer_out (negsuc 4)) (0 ∷ [])
write_int-negative_fixnum_example = write_int-negative_fixnum buffer_out 4 (omega arith)

read_int-negative_fixnum_example : Reads array_in (read_int array_in) (0xff ∷ []) (pos 31)
read_int-negative_fixnum_example = read_int-negative_fixnum array_in 31 (omega arith)

read_raw-write_raw_example :
    Trip buffer_out array_in
      (write_raw buffer_out (104 ∷ 105 ∷ []))
      (read_raw array_in)
      (104 ∷ 105 ∷ [])
read_raw-write_raw_example = read_raw-write_raw buffer_out array_in (104 ∷ 105 ∷ []) (omega arith)

header_type-eq-format_example : header_type (some 0xe5) ≡ format 0xe5
header_type-eq-format_example = header_type-eq-format 0xe5

-- An array of the integer 300 and an array of one nil, and a byte behind it.
abbrev nested : ArrayReader
nested = create (0x92 ∷ 0xcd ∷ 0x01 ∷ 0x2c ∷ 0x91 ∷ 0xc0 ∷ 0x05 ∷ [])

read_lazy-ends_example : (read_lazy array_in buffer_out 8 (nested, buffer)).0 ≢ err out_of_fuel
read_lazy-ends_example =
    read_lazy-ends array_in buffer_out 8 nested buffer (create-IsValid _ (omega arith))
      (Contents.create-IsValid 64 8 4096 8 (omega arith) (omega arith))
      (unfold create view in omega arith)

text_bytes : to_utf8 (0x48 ∷ 0xE9 ∷ []) ≡ ok (0x48 ∷ 0xC3 ∷ 0xA9 ∷ [])
unfolding to_utf8 Utf8.write_utf8
text_bytes = refl

Trip-text_example :
    ((t : WriteBuffer) → (write_utf8 buffer_out (0x48 ∷ 0xE9 ∷ []) t).0 ≡ ok tt)
    × Trip buffer_out array_in
        (λ t. (write_utf8 buffer_out (0x48 ∷ 0xE9 ∷ []) t).1)
        (read_utf8 array_in)
        (0x48 ∷ 0xE9 ∷ [])
Trip-text_example =
    Trip-text buffer_out array_in (0x48 ∷ 0xE9 ∷ []) (0x48 ∷ 0xC3 ∷ 0xA9 ∷ [])
      (omega arith, (omega arith, tt)) text_bytes (omega arith)
