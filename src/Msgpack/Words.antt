-- ===== src/Msgpack/Words.antt =====
-- What the pieces that the functions of src/lib/schwa/msgpack/wire_impl.h share do: a big-endian word,
-- and a header byte followed by one.
use libschwa.Prelude.{ℕ, ◌^◌, ◌<◌, Option, some, List, ◌∷◌, append-nil}
use libschwa.Exec.{Exec, ◌>>=◌}
use libschwa.Io.Stream.{In, Out}
use libschwa.Io.Effects.{
  get_byte, Reads, Reads-pure, Reads-get, Reads-word, Reads-bind, Writes, Writes-put, Writes-write,
  Writes-then,
}
use libschwa.Msgpack.Endian.{be_bytes, length-be_bytes, be_value-be_bytes}
use libschwa.Msgpack.Write.{write_be}
use libschwa.Msgpack.Read.{read_be}

module _ {S : Type 0} {V : S → Type 0} (i : In S V) where
  pub Reads-be : (n x : ℕ) → x < 256 ^ n → Reads i (read_be i n) (be_bytes n x) x
  unfolding read_be
  Reads-be n x h = rw (← append-nil (be_bytes n x)) (
      Reads-bind i _ (Reads-word i n (be_bytes n x) (length-be_bytes n x))
        (rw (be_value-be_bytes n x h) (Reads-pure i x)))

  pub Reads-header :
      {A : Type 0} (f : Option ℕ → Exec S A) (c : ℕ) {bs : List ℕ} {a : A}
      → Reads i (f (some c)) bs a
      → Reads i (get_byte i >>= f) (c ∷ bs) a
  Reads-header f c r = Reads-bind i f (Reads-get i c) r

module _ {S : Type 0} {V : S → Type 0} (o : Out S V) where
  pub Writes-be : (n x : ℕ) → Writes o (write_be o n x) (be_bytes n x)
  unfolding write_be
  Writes-be n x = Writes-write o (be_bytes n x)

  pub Writes-word : (c n x : ℕ) → Writes o (λ s. write_be o n x (o.put c s)) (c ∷ be_bytes n x)
  Writes-word c n x = Writes-then o (Writes-put o c) (Writes-be n x)
