-- ===== src/Msgpack/Lazy.antt =====
-- read_lazy of src/lib/schwa/msgpack/wire_impl.h: it copies one value from a source to a sink, whatever
-- the value is, without decoding it.

pub mod Copies
pub mod Ends
pub mod Room
pub mod Loads
pub mod Switches
pub mod Stored
use libschwa.Prelude.{
  ℕ, zero, suc, ◌*◌, ◌%◌, ◌^◌, Bool, true, false, Option, none, some, length, ◌==◌, if◌then◌else◌,
  bit_and,
}
use libschwa.Exec.{out_of_fuel, ok, Exec, pure, raise, ◌>>=◌, ◌>>◌}
use libschwa.Io.Stream.{In, Out}
use libschwa.Io.Effects.{get_byte, read_word}
use libschwa.Msgpack.Enums.{
  WireType, fixnum_positive, fixnum_negative, map_fixed, map_16, map_32, array_fixed, array_16,
  array_32, raw_fixed, raw_16, raw_32, nil, bool_true, bool_false, float, double, uint_8, uint_16,
  uint_32, uint_64, int_8, int_16, int_32, int_64, reserved,
}
use libschwa.Msgpack.Table.{header_type}
use libschwa.Msgpack.Write.{write_be}
use libschwa.Msgpack.Read.{read_be}

-- What the switch leaves in `recurse`, `raw` and `s32`: neither flag, or one of them with the count.
pub data Todo : Type 0 where
  done : Todo
  recurse : ℕ → Todo
  raw : ℕ → Todo

module _ {S : Type 0} {V : S → Type 0} (i : In S V) {T : Type 0} {W : T → Type 0}
    (o : Out T W) where
  -- A step on the source, and one on the sink.
  unfoldable pub on_in : {A : Type 0} → Exec S A → Exec (S × T) A
  on_in m (s, t) = ((m s).0, ((m s).1, t))

  unfoldable pub on_out : (T → T) → Exec (S × T) (Unit {0})
  on_out m (s, t) = (ok tt, (s, m t))

  unfoldable pub put_if : Option ℕ → Exec (S × T) (Option ℕ)
  put_if none = pure none
  put_if (some h) = do on_out (o.put h); pure (some h)

  -- `in.get()`, and `out.put` of what came unless that is EOF.
  unfoldable pub pass_byte : Exec (S × T) (Option ℕ)
  unfolding put_if
  pass_byte = do h ← on_in (get_byte i); put_if h

  -- `in.read(buf, n); out.write(buf, n);`, which writes all of `buf` on a short input too.
  unfoldable pub pass_bytes : ℕ → Exec (S × T) (Unit {0})
  pass_bytes n = do bs ← on_in (read_word i n); on_out (o.write bs)

  -- `_read_be16(in, &s16); _write_be16(out, &s16);` and the same at 32.
  unfoldable pub pass_be : ℕ → Exec (S × T) ℕ
  pass_be n = do x ← on_in (read_be i n); on_out (write_be o n x); pure x

  unfoldable pub lazy_switch : WireType → ℕ → Exec (S × T) Todo
  lazy_switch fixnum_positive h = pure done
  lazy_switch fixnum_negative h = pure done
  lazy_switch nil h = pure done
  lazy_switch bool_true h = pure done
  lazy_switch bool_false h = pure done
  lazy_switch int_8 h = do pass_bytes 1; pure done
  lazy_switch uint_8 h = do pass_bytes 1; pure done
  lazy_switch int_16 h = do pass_bytes 2; pure done
  lazy_switch uint_16 h = do pass_bytes 2; pure done
  lazy_switch float h = do pass_bytes 4; pure done
  lazy_switch int_32 h = do pass_bytes 4; pure done
  lazy_switch uint_32 h = do pass_bytes 4; pure done
  lazy_switch double h = do pass_bytes 8; pure done
  lazy_switch int_64 h = do pass_bytes 8; pure done
  lazy_switch uint_64 h = do pass_bytes 8; pure done
  lazy_switch array_fixed h = pure (recurse (bit_and h 0x0F))
  lazy_switch array_16 h = do s16 ← pass_be 2; pure (recurse s16)
  lazy_switch array_32 h = do s32 ← pass_be 4; pure (recurse s32)
  lazy_switch map_fixed h = pure (recurse (bit_and h 0x0F * 2 % 2 ^ 32))
  lazy_switch map_16 h = do s16 ← pass_be 2; pure (recurse (2 * s16))
  lazy_switch map_32 h = do s32 ← pass_be 4; pure (recurse (s32 * 2 % 2 ^ 32))
  lazy_switch raw_fixed h = pure (raw (bit_and h 0x1F))
  lazy_switch raw_16 h = do s16 ← pass_be 2; pure (raw s16)
  lazy_switch raw_32 h = do s32 ← pass_be 4; pure (raw s32)
  lazy_switch reserved h = pure done

  -- `for (i = 0; i != n; ++i) if (!step) return false;`, for both loops.
  unfoldable pub repeat : Exec (S × T) Bool → ℕ → Exec (S × T) Bool
  repeat step zero = pure true
  repeat step (suc n) = do more ← step; elim more [ true ↦ repeat step n | false ↦ pure false ]

  -- One round of the loop over a raw.
  unfoldable pub raw_step : Exec (S × T) Bool
  raw_step = do c ← pass_byte; elim c [ none ↦ pure false | some _ ↦ pure true ]

  unfoldable pub lazy_rest : Exec (S × T) Bool → Todo → Exec (S × T) Bool
  unfolding repeat raw_step
  lazy_rest step done = pure true
  lazy_rest step (recurse n) = repeat step n
  lazy_rest step (raw n) = repeat raw_step n

  unfoldable pub lazy_value : Exec (S × T) Bool → Option ℕ → Exec (S × T) Bool
  unfolding lazy_switch lazy_rest
  lazy_value step none = pure false
  lazy_value step (some h) = do todo ← lazy_switch (header_type (some h)) h; lazy_rest step todo

  -- The result alone: the reference parameter `type` gets header_type of the first byte, which the
  -- calls in the loop drop. `fuel` bounds how deep values lie in one another.
  unfoldable pub read_lazy : ℕ → Exec (S × T) Bool
  unfolding pass_byte lazy_value
  read_lazy zero = raise out_of_fuel
  read_lazy (suc fuel) = do h ← pass_byte; lazy_value (read_lazy fuel) h
