-- ===== src/Tests/Documents.antt =====
-- Runs of src/lib/schwa/dr/reader.cc and writer.cc and their theorem at a concrete document.
use libschwa.Prelude.{ℕ, ◌≡◌, refl, true, false, some, List, [], ◌∷◌, arith}
use libschwa.Exec.{ok, err, reader_exception}
use libschwa.Exec.{◌>>=◌}
use libschwa.Msgpack.Enums.{is_uint}
use libschwa.Msgpack.Table.{header_type}
use libschwa.Io.Effects.{get_byte, read_bytes}
use libschwa.Io.ArrayReader.{ArrayReader, array_in, create, get, peek}
use libschwa.Io.ArrayReader.{read as source_read}
use libschwa.Msgpack.Read.{read_array_size, read_raw, read_raw_size, read_uint, read_val_uint_fixed}
use libschwa.Io.WriteBuffer.Contents.{buffer_out}
use libschwa.Msgpack.Trip.{Trip}
use libschwa.Documents.Runtime.{RtField, RtStore, RtManager, meta_name, is_lazy}
use libschwa.Documents.Writer.{write_document}
use libschwa.Documents.Reader.{read, find_meta}
use libschwa.Documents.Bounds.{IsInBounds, read-IsInBounds}
use libschwa.Documents.RoundTrip.Parts.{IsManager, AreLazy}
use libschwa.Documents.RoundTrip.Whole.{read-write_document}

-- A class `T` with a slice `span` into the store `ts` of two annotations, beside the document's class.
abbrev span_field : RtField
span_field = record {
  serial = 115 ∷ 112 ∷ 97 ∷ 110 ∷ [];
  points_into = 1;
  is_slice = true;
  is_self_pointer = false;
  is_collection = false;
}

abbrev ts_store : RtStore
ts_store = record {
  serial = 116 ∷ 115 ∷ [];
  klass = 1;
  lazy_nelem = 2;
  lazy_data = 0x92 ∷ 0x80 ∷ 0x80 ∷ [];
}

abbrev rt : RtManager
rt = record {
  doc = 0;
  klasses =
      record { serial = meta_name; fields = [] }
      ∷ record { serial = 84 ∷ []; fields = span_field ∷ [] }
      ∷ [];
  stores = ts_store ∷ [];
  lazy_data = 0x80 ∷ [];
}

rt-IsManager : IsManager rt
unfolding find_meta AreLazy is_lazy
rt-IsManager = record {
  few_klasses = omega arith;
  few_stores = omega arith;
  klasses_fit = (
    record { name_fits = omega arith; few_fields = omega arith; fields_fit = tt },
    (
      record {
        name_fits = omega arith;
        few_fields = omega arith;
        fields_fit =
            (record { has_name = omega arith; name_fits = omega arith; points = omega arith }, tt);
      },
      tt,
    ),
  );
  stores_fit = (
    record {
      name_fits = omega arith;
      has_klass = omega arith;
      elements_fit = omega arith;
      data_fits = omega arith;
    },
    tt,
  );
  data_fits = omega arith;
  is_doc = refl;
  others = ((λ e. absurd (cc e)), ((λ e. refl), tt));
}

read-write_document_example :
    Trip buffer_out array_in (write_document buffer_out (68 ∷ []) rt) (read array_in) (some rt)
read-write_document_example = read-write_document buffer_out array_in (68 ∷ []) rt rt-IsManager

-- A stream of version 1, which starts with its classes.
read_version_1 : (read array_in (create (0x91 ∷ []))).0 ≡ err reader_exception
unfolding read create peek ◌>>=◌ is_uint header_type
read_version_1 = refl

-- The bytes of a document with its own class only, and with an empty map for its fields.
abbrev plain_bytes : List ℕ
plain_bytes =
    2 ∷ 0x91 ∷ 0x92 ∷ 0xa8 ∷ 95 ∷ 95 ∷ 109 ∷ 101 ∷ 116 ∷ 97 ∷ 95 ∷ 95 ∷ 0x90 ∷ 0x90 ∷ 1 ∷ 0x80 ∷ []

abbrev plain : RtManager
plain = record {
  doc = 0;
  klasses = record { serial = meta_name; fields = [] } ∷ [];
  stores = [];
  lazy_data = 0x80 ∷ [];
}

abbrev plain_end : ArrayReader
plain_end = record { data_bytes = plain_bytes; nbytes = 16; upto = 16; left = 0 }

plain_read : read array_in (create plain_bytes) ≡ (ok (some plain), plain_end)
unfolding read create peek ◌>>=◌ is_uint header_type read_uint get_byte get read_val_uint_fixed
    read_array_size read_raw read_raw_size read_bytes source_read
plain_read = refl

read-IsInBounds_example : IsInBounds plain
read-IsInBounds_example = read-IsInBounds array_in (create plain_bytes) plain_end plain plain_read
