-- ===== src/Io/UnsafeArrayWriter.antt =====
-- src/lib/schwa/io/unsafe_array_writer.h: a byte sink over an array whose size it does not know.
use libschwa.Prelude.{ℕ, refl, List, [], ◌∷◌, ◌++◌}
use libschwa.Io.Stream.{Out}

-- The bytes from `_data` to `_upto`.
pub record UnsafeArrayWriter : Type 0 where
  pub data_bytes : List ℕ

unfoldable pub put : ℕ → UnsafeArrayWriter → UnsafeArrayWriter
put c w = record { data_bytes = w.data_bytes ++ c ∷ [] }

unfoldable pub write : List ℕ → UnsafeArrayWriter → UnsafeArrayWriter
write bs w = record { data_bytes = w.data_bytes ++ bs }

-- io::Traits gives it write for write_zerocopy.
unfoldable pub array_out : Out UnsafeArrayWriter (λ w. Unit {0})
unfolding put write
array_out = record {
  bytes = λ w. w.data_bytes;
  put = put;
  write = write;
  write_zerocopy = write;
  put-IsValid = λ c w v. tt;
  put_bytes = λ c w v. refl;
  write-IsValid = λ bs w v. tt;
  write_bytes = λ bs w v. refl;
  write_zerocopy-IsValid = λ bs w v. tt;
  write_zerocopy_bytes = λ bs w v. refl;
}
