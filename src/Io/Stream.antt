-- ===== src/Io/Stream.antt =====
-- The template parameters IN and OUT of src/lib/schwa/msgpack/wire_impl.h: what the wire functions ask
-- of a byte source and of a byte sink, as operations with their laws. io/array_reader.h implements
-- the first; io/write_buffer.h and io/unsafe_array_writer.h implement the second.
use libschwa.Prelude.{ℕ, length, ◌≡◌, Option, List, [], ◌∷◌, ◌++◌, head?, take, drop, All, IsByte}

-- `view` is what is left to read. `read n` is `in.read(buf, n)`: the bytes that it stored in `buf`. Where they
-- are fewer than `n`, the rest of `buf` has what it had: `unwritten` is any such bytes.
pub record In (S : Type 0) (IsValid : S → Type 0) : Type 0 where
  pub view : S → List ℕ
  pub get : S → Option ℕ × S
  pub peek : S → Option ℕ
  pub read : ℕ → S → List ℕ × S
  pub ignore : ℕ → S → S
  pub unwritten : ℕ → S → List ℕ
  pub length-unwritten : (n : ℕ) (s : S) → length (unwritten n s) ≡ n
  pub unwritten-IsByte : (n : ℕ) (s : S) → All IsByte (unwritten n s)
  pub view-IsByte : (s : S) → IsValid s → All IsByte (view s)
  pub get-IsValid : (s : S) → IsValid s → IsValid (get s).1
  pub get_value : (s : S) → IsValid s → (get s).0 ≡ head? (view s)
  pub get_view : (s : S) → IsValid s → view (get s).1 ≡ drop 1 (view s)
  pub peek_value : (s : S) → IsValid s → peek s ≡ head? (view s)
  pub read-IsValid : (n : ℕ) (s : S) → IsValid s → IsValid (read n s).1
  pub read_value : (n : ℕ) (s : S) → IsValid s → (read n s).0 ≡ take n (view s)
  pub read_view : (n : ℕ) (s : S) → IsValid s → view (read n s).1 ≡ drop n (view s)
  pub ignore-IsValid : (n : ℕ) (s : S) → IsValid s → IsValid (ignore n s)
  pub ignore_view : (n : ℕ) (s : S) → IsValid s → view (ignore n s) ≡ drop n (view s)

-- `bytes` is all that was written, in order.
pub record Out (S : Type 0) (IsValid : S → Type 0) : Type 0 where
  pub bytes : S → List ℕ
  pub put : ℕ → S → S
  pub write : List ℕ → S → S
  pub write_zerocopy : List ℕ → S → S
  pub put-IsValid : (b : ℕ) (s : S) → IsValid s → IsValid (put b s)
  pub put_bytes : (b : ℕ) (s : S) → IsValid s → bytes (put b s) ≡ bytes s ++ b ∷ []
  pub write-IsValid : (bs : List ℕ) (s : S) → IsValid s → IsValid (write bs s)
  pub write_bytes : (bs : List ℕ) (s : S) → IsValid s → bytes (write bs s) ≡ bytes s ++ bs
  pub write_zerocopy-IsValid : (bs : List ℕ) (s : S) → IsValid s → IsValid (write_zerocopy bs s)
  pub write_zerocopy_bytes :
      (bs : List ℕ) (s : S) → IsValid s → bytes (write_zerocopy bs s) ≡ bytes s ++ bs
