-- ===== src/Msgpack/Text.antt =====
-- read_utf8 and write_utf8 of src/lib/schwa/msgpack/wire_impl.h: a Unicode string as a raw of its UTF-8.
use libschwa.Prelude.{ℕ, ◌^◌, ◌<◌, ◌≡◌, refl, List, [], append-nil, length, All}
use libschwa.Exec.{Result, ok, Exec, ◌>>=◌}
use libschwa.Io.Stream.{In, Out}
use libschwa.Io.Effects.{Reads, Reads-pure, Reads-bind}
use libschwa.Unicode.Utf8.{to_utf8}
use libschwa.Unicode.Decoder.{from_utf8}
use libschwa.Unicode.Strings.{from_utf8-to_utf8}
use libschwa.Msgpack.Write.{write_raw}
use libschwa.Msgpack.Read.{read_raw}
use libschwa.Msgpack.Trip.{Trip}
use libschwa.Msgpack.RoundTrip.{read_raw-write_raw}

-- What a function that may throw, but changes nothing, gives in a chain of steps.
abbrev pub lift : {S A : Type 0} → Result A → Exec S A
lift r s = (r, s)

module _ {S : Type 0} {V : S → Type 0} (i : In S V) where
  unfoldable pub read_utf8 : Exec S (List ℕ)
  read_utf8 = do utf8 ← read_raw i; lift (from_utf8 utf8)

  Reads-text :
      {bs : List ℕ} (utf8 cs : List ℕ)
      → Reads i (read_raw i) bs utf8
      → from_utf8 utf8 ≡ ok cs
      → Reads i read_utf8 bs cs
  unfolding read_utf8
  Reads-text {bs} utf8 cs r e = rw (← append-nil bs) (Reads-bind i _ r last)
    where
      last : Reads i (lift (from_utf8 utf8)) [] cs
      last = rw e (Reads-pure i cs)

module _ {T : Type 0} {W : T → Type 0} (o : Out T W) where
  unfoldable pub write_utf8 : List ℕ → Exec T (Unit {0})
  write_utf8 s = do utf8 ← lift (to_utf8 s); λ t. (ok tt, write_raw o utf8 t)

module _ {T : Type 0} {W : T → Type 0} (o : Out T W) {S : Type 0} {V : S → Type 0}
    (i : In S V) where
  -- A string of code points below 2 ^ 21 whose UTF-8 is shorter than 2 ^ 32 bytes is written without a
  -- throw, and read_utf8 reads it back and takes just the bytes written.
  pub Trip-text :
      (cs utf8 : List ℕ)
      → All (λ c. c < 0x200000) cs
      → to_utf8 cs ≡ ok utf8
      → length utf8 < 2 ^ 32
      → ((t : T) → (write_utf8 o cs t).0 ≡ ok tt)
        × Trip o i (λ t. (write_utf8 o cs t).1) (read_utf8 i) cs
  unfolding write_utf8 ◌>>=◌
  Trip-text cs utf8 h e l =
      let raw = read_raw-write_raw o i utf8 l in
      let back = from_utf8-to_utf8 cs utf8 h e in
      rw e (
        λ t. refl,
        record {
          wire = raw.wire;
          writes = raw.writes;
          reads = Reads-text i utf8 cs raw.reads back;
        },
      )
